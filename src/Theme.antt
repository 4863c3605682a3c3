-- ===== src/Theme.antt =====
-- staticfiles/admin/js/theme.js: the theme of the page, which the browser's storage keeps.
mod Tests
pub mod Cycle
use Prim.Native.String.{String}
use text.Mathlib.Text.{◌==◌ as str_eq}
use agentsecrets_server.Prelude.{
  List, [], ◌∷◌, ◌++◌, Option, none, some, Bool, not, ◌&&◌, if◌then◌else◌,
}

-- `theme` is the data attribute of the document's element, `stored` the entry of `localStorage`, and
-- `errors` holds the modes that `console.error` has reported.
pub record Document : Type 0 where
  pub theme : Option String
  pub stored : Option String
  pub errors : List String

pub set_theme : String → Document → Document
set_theme mode p =
    let invalid =
      not (str_eq mode "light") && not (str_eq mode "dark") && not (str_eq mode "auto") in
    let used = if invalid then "auto" else mode in
    record {
      theme = some used;
      stored = some used;
      errors = if invalid then p.errors ++ mode ∷ [] else p.errors;
    }

-- `localStorage.getItem("theme") || "auto"`: a missing entry and an empty one are false.
pub or_auto : Option String → String
or_auto none = "auto"
or_auto (some mode) = if str_eq mode "" then "auto" else mode

-- `prefers_dark` is the answer of `matchMedia` at the time of the click.
unfoldable pub cycle_theme : Bool → Document → Document
unfolding set_theme or_auto
cycle_theme prefers_dark p =
    let current_theme = or_auto p.stored in
    if prefers_dark
    then (if str_eq current_theme "auto"
        then set_theme "light" p
        else if str_eq current_theme "light"
        then set_theme "dark" p
        else set_theme "auto" p)
    else (if str_eq current_theme "auto"
        then set_theme "dark" p
        else if str_eq current_theme "dark"
        then set_theme "light" p
        else set_theme "auto" p)

unfoldable pub init_theme : Document → Document
unfolding set_theme or_auto
init_theme p = set_theme (or_auto p.stored) p
