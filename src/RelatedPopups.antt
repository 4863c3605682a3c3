-- ===== src/RelatedPopups.antt =====
-- staticfiles/admin/js/admin/RelatedObjectLookups.js: the names of the pop-up windows, which carry the
-- depth of the window that opened them.
mod Tests
pub mod Names
pub mod Windows
pub mod Events
pub mod Options
pub mod Dismiss
use mathlib.Core.Option
use agentsecrets_server.Prelude.{
  ℕ, ◌+◌, List, [], ◌∷◌, ◌++◌, Option, none, some, Bool, true, false, ◌&&◌, ◌==◌, if◌then◌else◌,
  drop,
}
use agentsecrets_server.Prelude.Int.{ℤ, pos, negsuc, inc}
use agentsecrets_server.Text.{codes}
use agentsecrets_server.Text.Search.{starts_with}
use agentsecrets_server.Text.Decimal.{decimal}

-- A number as it is appended to a text; `none` is NaN.
pub show_number : Option ℤ → List ℕ
show_number none = codes "NaN"
show_number (some (pos n)) = decimal n
show_number (some (negsuc n)) = b'-' ∷ decimal (n + 1)

-- `"__" + (popupIndex + 1)`
pub suffix : Option ℤ → List ℕ
unfolding show_number
suffix popup_index = b'_' ∷ b'_' ∷ show_number (Option.map inc popup_index)

unfoldable pub add_popup_index : Option ℤ → List ℕ → List ℕ
unfolding suffix
add_popup_index popup_index name = name ++ suffix popup_index

pub same_text : List ℕ → List ℕ → Bool
same_text [] [] = true
same_text (c ∷ s) (d ∷ t) = c == d && same_text s t
same_text _ _ = false

-- `name.replace(new RegExp(suffix + "$"), "")`; no character of the suffix is special.
pub remove_end : List ℕ → List ℕ → List ℕ
unfolding same_text
remove_end end [] = []
remove_end end (c ∷ s) =
    let rest = remove_end end s in if same_text (c ∷ s) end then [] else c ∷ rest

unfoldable pub remove_popup_index : Option ℤ → List ℕ → List ℕ
unfolding suffix remove_end
remove_popup_index popup_index name = remove_end (suffix popup_index) name

-- What follows the last `__`, if there is one.
pub after_last : List ℕ → Option (List ℕ)
after_last [] = none
after_last (c ∷ s) = elim (after_last s) [
  | some t ↦ some t
  | none ↦ if starts_with (b'_' ∷ b'_' ∷ []) (c ∷ s) then some (drop 2 (c ∷ s)) else none
]

-- `window.name.substring(index)`: without a `__`, `lastIndexOf` is -1 and the index 1.
pub index_text : List ℕ → List ℕ
unfolding after_last
index_text name = elim (after_last name) [ some t ↦ t | none ↦ drop 1 name ]

-- `is_popup` says whether the page has an element named `_popup`; `parse_int` is the host's.
unfoldable pub set_popup_index : (List ℕ → Option ℤ) → Bool → List ℕ → Option ℤ
unfolding index_text
set_popup_index parse_int is_popup name =
    if is_popup then parse_int (index_text name) else some (pos 0)
