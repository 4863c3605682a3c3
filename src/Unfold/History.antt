-- ===== src/Unfold/History.antt =====
-- staticfiles/unfold/js/app.js, `searchCommand`: the history of the commands, as `localStorage` keeps
-- it. That a list survives `JSON.stringify` and `JSON.parse` is the language's.
pub mod Recent
pub mod Favorites
use Prim.Native.String.{String}
use text.Mathlib.Text.{◌==◌ as str_eq}
use agentsecrets_server.Prelude.{
  ◌>>=◌, ℕ, zero, suc, List, [], ◌∷◌, Option, none, some, Bool, true, false, not, ◌&&◌, take,
}
use agentsecrets_server.Prelude.Sort.{sort}

pub record Command : Type 0 where
  pub title : String
  pub description : String
  pub link : String
  pub favorite : Bool

-- `JSON.parse(localStorage.getItem("commandHistory") || "[]")`
abbrev pub or_none : Option (List Command) → List Command
or_none none = []
or_none (some history) = history

-- The loop of `addToHistory`. It removes from the array that it runs over, so it does not look at the
-- command that takes the place of a removed one.
pub remove_link : String → List Command → List Command
remove_link link [] = []
remove_link link (c ∷ []) = elim (str_eq c.link link) [ true ↦ [] | false ↦ c ∷ [] ]
remove_link link (c ∷ d ∷ history) = elim (str_eq c.link link) [
  | true ↦ d ∷ remove_link link history
  | false ↦ c ∷ remove_link link (d ∷ history)
]

unfoldable pub add_to_history : Command → Option (List Command) → List Command
unfolding remove_link
add_to_history command stored = take 10 (command ∷ remove_link command.link (or_none stored))

-- `commandHistory.splice(index, 1)`
pub splice_at : ℕ → List Command → List Command
splice_at n [] = []
splice_at zero (c ∷ history) = history
splice_at (suc n) (c ∷ history) = c ∷ splice_at n history

unfoldable pub remove_from_history : ℕ → Option (List Command) → List Command
unfolding splice_at
remove_from_history index stored = splice_at index (or_none stored)

abbrev pub toggled : Command → Command
toggled c = record c { favorite = not c.favorite }

-- `commandHistory[index].favorite = !commandHistory[index].favorite`: a missing command throws.
pub toggle_at : ℕ → List Command → Option (List Command)
toggle_at n [] = none
toggle_at zero (c ∷ history) = some (toggled c ∷ history)
toggle_at (suc n) (c ∷ history) = do rest ← toggle_at n history; some (c ∷ rest)

-- `Number(b.favorite) - Number(a.favorite)` is positive.
abbrev pub is_after : Command → Command → Bool
is_after a b = b.favorite && not a.favorite

unfoldable pub toggle_favorite : ℕ → Option (List Command) → Option (List Command)
unfolding toggle_at sort
toggle_favorite index stored = do
  history ← toggle_at index (or_none stored)
  some (sort is_after history)
