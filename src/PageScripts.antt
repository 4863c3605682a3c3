-- ===== src/PageScripts.antt =====
-- staticfiles/admin/js/: the small scripts of the pages, filters.js, unusable_password_field.js,
-- popup_response.js, cancel.js and change_form.js, and default.js of staticfiles/rest_framework/js/.
pub mod Filters
mod Tests
use agentsecrets_server.Prelude.{
  ℕ, List, [], ◌∷◌, Bool, true, false, not, ◌&&◌, ◌||◌, ◌==◌, Option, none, some, if◌then◌else◌,
  keep,
}
use agentsecrets_server.Text.{codes, is_lower}
use agentsecrets_server.Text.Search.{equal_text}
use agentsecrets_server.RelatedPopups.Windows.{Window}
use agentsecrets_server.RelatedPopups.Options.{State, Document}
use agentsecrets_server.RelatedPopups.Dismiss.{dismiss_add, dismiss_change, dismiss_delete}

-- unusable_password_field.js: what the listener hides; `none` is an element that is not there.
pub record PasswordForm : Type 0 where
  pub password1_hidden : Bool
  pub password2_hidden : Bool
  pub messages_hidden : Option Bool
  pub set_hidden : Option Bool
  pub unset_hidden : Option Bool

abbrev hide : Bool → Option Bool → Option Bool
hide hidden none = none
hide hidden (some old) = some hidden

abbrev hide_both : Bool → Option Bool → Option Bool → Option Bool × Option Bool
hide_both usable (some a) (some b) = (some (not usable), some usable)
hide_both usable none b = (none, b)
hide_both usable (some a) none = (some a, none)

-- A change of the option with this value.
pub change_usable_password : List ℕ → Bool → PasswordForm → PasswordForm
change_usable_password value checked f =
    let usable = if equal_text value (codes "true") then checked else not checked in
    let (set, unset) = hide_both usable f.set_hidden f.unset_hidden in
    record {
      password1_hidden = not usable;
      password2_hidden = not usable;
      messages_hidden = hide usable f.messages_hidden;
      set_hidden = set;
      unset_hidden = unset;
    }

-- popup_response.js: the answer of a window to its opener.
pub record Response : Type 0 where
  pub action : List ℕ
  pub value : List ℕ
  pub obj : List ℕ
  pub new_value : List ℕ

pub respond : Document → Window → List ℕ → Response → State → Option State
respond doc win path r s =
    if equal_text r.action (codes "change")
    then dismiss_change doc win path r.value r.obj r.new_value s
    else if equal_text r.action (codes "delete")
    then some (dismiss_delete doc win r.value s)
    else dismiss_add doc win path r.value r.obj s

-- cancel.js: the click on a cancel link.
pub data Leaving : Type 0 where
  closed : Leaving
  back : Leaving

pub handle_click : Bool → Leaving
handle_click has_popup = if has_popup then closed else back

-- change_form.js: the first element of the form that gets the focus.
pub record Control : Type 0 where
  pub id : ℕ
  pub tag_name : List ℕ
  pub disabled : Bool
  pub is_rendered : Bool

abbrev is_input_tag : List ℕ → Bool
is_input_tag tag =
    equal_text tag (codes "BUTTON")
    || (equal_text tag (codes "INPUT")
        || (equal_text tag (codes "SELECT") || equal_text tag (codes "TEXTAREA")))

pub focused : List Control → Option ℕ
focused [] = none
focused (c ∷ controls) =
    let later = focused controls in
    if is_input_tag c.tag_name && (not c.disabled && c.is_rendered) then some c.id else later

-- default.js: the name of the tab in the cookie, without what is not a small letter or a hyphen.
abbrev is_tab_unit : ℕ → Bool
is_tab_unit c = is_lower c || c == b'-'

abbrev tab_name : Option (List ℕ) → List ℕ
tab_name none = []
tab_name (some name) = keep is_tab_unit name

pub find_tab : List ℕ → List (List ℕ) → Bool
find_tab name [] = false
find_tab name (tab ∷ tabs) = equal_text tab name || find_tab name tabs

abbrev first_tab : List (List ℕ) → Option (List ℕ)
first_tab [] = none
first_tab (tab ∷ tabs) = some tab

abbrev named_tab : List ℕ → List (List ℕ) → Bool
named_tab [] tabs = false
named_tab (c ∷ name) tabs = find_tab (c ∷ name) tabs

-- The tab that is shown, of those of the form switcher.
pub shown_tab : Option (List ℕ) → List (List ℕ) → Option (List ℕ)
unfolding find_tab
shown_tab cookie tabs =
    if named_tab (tab_name cookie) tabs then some (tab_name cookie) else first_tab tabs
