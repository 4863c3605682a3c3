-- ===== src/Unfold/Shell.antt =====
-- staticfiles/unfold/js/app.js: the theme, the forms and the records of an Unfold page.
use Prim.Native.String.{String}
use text.Mathlib.Text.{◌==◌ as str_eq}
use agentsecrets_server.Prelude.{
  ℕ, ◌+◌, List, [], ◌∷◌, Option, none, some, Bool, true, false, not, ◌&&◌, ◌||◌, if◌then◌else◌,
}

-- `theme`: the three flags, the theme that Alpine keeps, and the class of the body. `init` watches each
-- flag, and the class follows the flag that has changed.
pub record Theme : Type 0 where
  pub open_modal : Bool
  pub filter_open : Bool
  pub open_all_applications : Bool
  pub admin_theme : String
  pub overflow_hidden : Bool

unfoldable pub set_open_modal : Bool → Theme → Theme
set_open_modal value t = record t { open_modal = value; overflow_hidden = value }

unfoldable pub set_filter_open : Bool → Theme → Theme
set_filter_open value t = record t { filter_open = value; overflow_hidden = value }

unfoldable pub set_open_all_applications : Bool → Theme → Theme
set_open_all_applications value t = record t {
  open_all_applications = value;
  overflow_hidden = value;
}

unfoldable pub switch_theme : String → Theme → Theme
switch_theme theme t = record t { admin_theme = theme }

-- `x-bind:class`
unfoldable pub class_of : Bool → Theme → String
class_of prefers_dark t =
    if str_eq t.admin_theme "dark" || (str_eq t.admin_theme "auto" && prefers_dark)
    then "dark"
    else if str_eq t.admin_theme "light"
    then "light"
    else ""

-- `x-on:keydown.window`
unfoldable pub keydown : Bool → Bool → String → Theme → Theme
keydown meta ctrl key t =
    if (meta || ctrl) && str_eq key "e"
    then record t { admin_theme = if str_eq t.admin_theme "light" then "dark" else "light" }
    else t

-- `sortRecords`: the ordering inputs get their place, from `index` on.
pub number_inputs : ℕ → List ℕ → List ℕ
number_inputs index [] = []
number_inputs index (value ∷ inputs) = index ∷ number_inputs (index + 1) inputs

-- `moveRecords`: whether a move beside an element with these classes is allowed.
unfoldable pub move_allowed : Bool → Bool → Bool → Bool
move_allowed is_template is_form_actions will_insert_after =
    not ((is_template || is_form_actions) && will_insert_after)

-- `warnWithoutSaving`: whether a field has been changed, and whether the listener is still there.
pub record Warning : Type 0 where
  pub form_changed : Bool
  pub listening : Bool

unfoldable pub input_field : Warning → Warning
input_field w = record w { form_changed = true }

unfoldable pub submit_form : Warning → Warning
submit_form w = record w { listening = false }

-- Whether leaving the page is prevented.
unfoldable pub leave_prevented : Warning → Bool
leave_prevented w = w.listening && w.form_changed

-- `filterForm`: `formData.delete(key)` for every key that has an empty value. It deletes all the entries
-- of the key.
pub has_empty : List (String × String) → String → Bool
has_empty [] key = false
has_empty ((k, v) ∷ entries) key = (str_eq k key && str_eq v "") || has_empty entries key

pub without_keys : List (String × String) → List (String × String) → List (String × String)
unfolding has_empty
without_keys all [] = []
without_keys all ((k, v) ∷ entries) =
    let rest = without_keys all entries in if has_empty all k then rest else (k, v) ∷ rest

unfoldable pub form_data : List (String × String) → List (String × String)
unfolding without_keys
form_data entries = without_keys entries entries

-- `getCurrentTab`: the fragment without its `#`, and whether the page has its group.
unfoldable pub get_current_tab : (String → Bool) → String → Option String
get_current_tab has_group fragment =
    if str_eq fragment "" then none else if has_group fragment then some fragment else none
