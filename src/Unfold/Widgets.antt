-- ===== src/Unfold/Widgets.antt =====
-- app.js: the overlay behind the boxes for dates and times, and the name of a chosen file.
pub mod Placeholder
use agentsecrets_server.Prelude.{ℕ, List, [], ◌∷◌, Bool}
use agentsecrets_server.Text.Replace.{split_on}

-- `dateTimeShortcutsOverlay`, of the changes in one round of its observer: whether each target is
-- shown, and whether the overlay was.
pub overlay_shown : Bool → List Bool → Bool
overlay_shown shown [] = shown
overlay_shown shown (display ∷ mutations) = overlay_shown display mutations

-- The placeholder of a file input after a change: the last part of `value.split("\\")`.
pub last_part : List (List ℕ) → List ℕ
last_part [] = []
last_part (part ∷ []) = part
last_part (part ∷ next ∷ parts) = last_part (next ∷ parts)

pub file_placeholder : List ℕ → List ℕ
unfolding last_part
file_placeholder value = last_part (split_on (92 ∷ []) value)
