-- ===== src/NavSidebar.antt =====
-- staticfiles/admin/js/nav_sidebar.js: the sidebar that opens and closes, and its quick filter.
mod Tests
pub mod Toggle
pub mod QuickFilter
use Prim.Native.String.{String}
use text.Mathlib.Text.{◌==◌ as str_eq}
use agentsecrets_server.Prelude.{
  ℕ, List, [], ◌∷◌, Option, none, some, Bool, true, false, not, ◌||◌, if◌then◌else◌,
}
use agentsecrets_server.Text.{CaseMapping}
use agentsecrets_server.Text.Search.{includes}

-- The sidebar: the variable of the script, the entry of `localStorage`, the class `shifted` of the
-- main part, and the sidebar's attribute `aria-expanded`.
pub record Sidebar : Type 0 where
  pub nav_sidebar_is_open : String
  pub stored : Option String
  pub shifted : Bool
  pub aria_expanded : String

or_true : Option String → String
or_true none = "true"
or_true (some s) = s

-- What a page that loads makes of the entry.
unfoldable pub load : Option String → Sidebar
unfolding or_true
load stored =
    let nav_sidebar_is_open = or_true stored in
    record {
      nav_sidebar_is_open = nav_sidebar_is_open;
      stored = stored;
      shifted = str_eq nav_sidebar_is_open "true";
      aria_expanded = nav_sidebar_is_open;
    }

unfoldable pub click_toggle : Sidebar → Sidebar
click_toggle s =
    let nav_sidebar_is_open = if str_eq s.nav_sidebar_is_open "true" then "false" else "true" in
    record {
      nav_sidebar_is_open = nav_sidebar_is_open;
      stored = some nav_sidebar_is_open;
      shifted = not s.shifted;
      aria_expanded = nav_sidebar_is_open;
    }

-- An entry of `options`: the title, and whether its row has `display: none`.
pub record Entry : Type 0 where
  pub title : List ℕ
  pub hidden : Bool

-- The quick filter: the entries, the text of the input and its class `no-results`, and the entry of
-- `sessionStorage`.
pub record Filter : Type 0 where
  pub entries : List Entry
  pub value : List ℕ
  pub no_results : Bool
  pub stored : Option (List ℕ)

abbrev pub is_empty : List ℕ → Bool
is_empty [] = true
is_empty (c ∷ s) = false

module _ (host : CaseMapping) where
  open host use {to_lower_case}

  pub matches : List ℕ → Entry → Bool
  matches filter_value o = includes filter_value (to_lower_case o.title)

  -- The loop over `options`: the entries, and `matches`.
  pub check_entries : List ℕ → List Entry → List Entry × Bool
  unfolding matches
  check_entries filter_value [] = ([], false)
  check_entries filter_value (o ∷ options) =
      let (rest, any) = check_entries filter_value options in
      if is_empty filter_value
      then (record o { hidden = false } ∷ rest, any)
      else if matches filter_value o
      then (record o { hidden = false } ∷ rest, true)
      else (record o { hidden = true } ∷ rest, any)

  -- `escape` says whether the event's key is Escape.
  unfoldable pub check_value : Bool → Filter → Filter
  unfolding check_entries
  check_value escape f =
      let lowered = if is_empty f.value then f.value else to_lower_case f.value in
      let filter_value = if escape then [] else lowered in
      let (entries, any) = check_entries filter_value f.entries in
      record {
        entries = entries;
        value = if escape then [] else f.value;
        no_results = not (is_empty filter_value || any);
        stored = some filter_value;
      }

  -- The end of `initSidebarQuickFilter`: an entry that is missing or empty is false.
  unfoldable pub init_filter : Filter → Filter
  unfolding check_value check_entries
  init_filter f = elim f.stored [
    | none ↦ f
    | some stored_value ↦
        if is_empty stored_value then f else check_value false (record f { value = stored_value })
  ]
