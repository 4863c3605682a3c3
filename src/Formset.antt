-- ===== src/Formset.antt =====
-- staticfiles/admin/js/inlines.js: the inline forms of a page, their numbers, and the buttons that
-- add and delete them.
mod Tests
pub mod Clicks
pub mod Sequence
pub mod Names
pub mod Stacked
use agentsecrets_server.Prelude.{
  ℕ, zero, suc, ◌+◌, ◌-◌, Bool, true, false, not, Option, none, some, List, [], ◌∷◌, ◌++◌, map, leb,
  if◌then◌else◌, length,
}

-- An id, a name or a label's target in which the script's expression `prefix-(\d+|__prefix__)` finds a
-- form number, as the text around it; `none` is the template's `__prefix__`. Texts in which it finds
-- nothing stay as they are and are left out.
pub record Label : Type 0 where
  pub before : List ℕ
  pub index : Option ℕ
  pub after : List ℕ

-- A form: its own id, its elements, whether it was there before (and so has no delete link), and
-- whether a row of errors stands before it.
pub record Form : Type 0 where
  pub own : Label
  pub elements : List Label
  pub has_original : Bool
  pub errors_before : Bool

-- The page. `max_forms` and `min_forms` are empty inputs where they are `none`; `delete_shown` is the
-- visibility of the group's delete links.
pub record Formset : Type 0 where
  pub forms : List Form
  pub template : List Label
  pub own_before : List ℕ
  pub total_forms : ℕ
  pub next_index : ℕ
  pub max_forms : Option ℕ
  pub min_forms : Option ℕ
  pub add_shown : Bool
  pub delete_shown : Bool

abbrev pub update_element_index : ℕ → Label → Label
update_element_index ndx l = record l { index = some ndx }

-- `(maxForms.val() !== '') && (maxForms.val() - totalForms.val()) <= 0`
abbrev pub is_full : Option ℕ → ℕ → Bool
is_full none total = false
is_full (some m) total = leb m total

-- `(minForms.val() !== '') && (minForms.val() - totalForms.val()) >= 0`
abbrev pub is_minimal : Option ℕ → ℕ → Bool
is_minimal none total = false
is_minimal (some m) total = leb total m

pub toggle_delete_button_visibility : Formset → Formset
toggle_delete_button_visibility s = record s {
  delete_shown = not (is_minimal s.min_forms s.total_forms);
}

-- `$.fn.formset`, after the page has loaded; `total` is the value of the TOTAL_FORMS input.
unfoldable pub init : List Form → List Label → List ℕ → ℕ → Option ℕ → Option ℕ → Formset
unfolding toggle_delete_button_visibility
init forms template own_before total max_forms min_forms =
    let s : Formset = record {
      forms = forms;
      template = template;
      own_before = own_before;
      total_forms = total;
      next_index = total;
      max_forms = max_forms;
      min_forms = min_forms;
      add_shown = not (is_full max_forms total);
      delete_shown = false;
    } in
    toggle_delete_button_visibility s

-- The clone of the template that the add button inserts before it, behind the other forms.
abbrev pub new_form : Formset → Form
new_form s = record {
  own = record { before = s.own_before; index = some s.next_index; after = [] };
  elements = map (update_element_index s.total_forms) s.template;
  has_original = false;
  errors_before = false;
}

unfoldable pub add_inline : Formset → Formset
unfolding toggle_delete_button_visibility
add_inline s =
    let total = s.total_forms + 1 in
    toggle_delete_button_visibility (record s {
      forms = s.forms ++ new_form s ∷ [];
      total_forms = total;
      next_index = s.next_index + 1;
      add_shown = if is_full s.max_forms total then false else s.add_shown;
    })

pub remove_at : ℕ → List Form → List Form
remove_at n [] = []
remove_at zero (f ∷ forms) = forms
remove_at (suc n) (f ∷ forms) = f ∷ remove_at n forms

-- The last loop of the delete handler, from form `i` on.
pub renumber : ℕ → List Form → List Form
renumber i [] = []
renumber i (f ∷ forms) =
    record f {
      own = update_element_index i f.own;
      elements = map (update_element_index i) f.elements;
    }
    ∷ renumber (i + 1) forms

-- The click on the delete link of form `n`: the row of errors before it goes with it. There is a form
-- where there is such a link, so `nextIndex -= 1` does not go below 0 from the count of the forms.
unfoldable pub delete_inline : ℕ → Formset → Formset
unfolding toggle_delete_button_visibility remove_at renumber
delete_inline n s =
    let forms = remove_at n s.forms in
    let total = length forms in
    toggle_delete_button_visibility (record s {
      forms = renumber 0 forms;
      total_forms = total;
      next_index = s.next_index - 1;
      add_shown = if is_full s.max_forms total then s.add_shown else true;
    })
