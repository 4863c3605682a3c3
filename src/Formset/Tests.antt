-- ===== src/Formset/Tests.antt =====
-- A formset of two forms, and the theorems on it.
use agentsecrets_server.Prelude.{
  ℕ, ◌≡◌, refl, true, false, Option, none, some, [], ◌∷◌, arith, get_elem?, List, length, ◌++◌,
}
use agentsecrets_server.Formset.{
  Label, Form, Formset, add_inline, delete_inline, init, toggle_delete_button_visibility, renumber,
  remove_at,
}
use agentsecrets_server.Formset.Clicks.{
  IsWithin, add_click, delete_click, no_click, and_then, Clicks-IsWithin, init-IsValid,
}
use agentsecrets_server.Text.{codes}
use agentsecrets_server.Text.Decimal.{decimal}
use agentsecrets_server.Text.Search.{starts_with}
use agentsecrets_server.Formset.Names.{is_first, dashed, update_text, text_of, update_text-text_of}
use agentsecrets_server.Formset.Stacked.{
  Event, added, removed, change, changes, insert_label, remove_label, run_labels,
}
use agentsecrets_server.Formset.Stacked.Labels.{run_labels-number}

abbrev label : Option ℕ → Label
label n = record { before = codes "id_key-"; index = n; after = codes "-name" }

abbrev form : ℕ → Form
form n = record {
  own = record { before = codes "key-"; index = some n; after = [] };
  elements = label (some n) ∷ [];
  has_original = false;
  errors_before = false;
}

abbrev two_forms : Formset
two_forms = init (form 0 ∷ form 1 ∷ []) (label none ∷ []) (codes "key-") 2 (some 3) (some 1)

two_forms-IsWithin : IsWithin two_forms
unfolding init
two_forms-IsWithin = record {
  valid =
      init-IsValid (form 0 ∷ form 1 ∷ []) (label none ∷ []) (codes "key-") (some 3) (some 1)
        ((refl, (refl, tt), (refl, (refl, tt), tt)));
  most = omega arith;
  least = omega arith;
}

buttons :
    (two_forms.add_shown ≡ true)
    × ((add_inline two_forms).delete_shown ≡ true)
    × ((add_inline two_forms).add_shown ≡ false)
unfolding init add_inline toggle_delete_button_visibility
buttons = (refl, refl, refl)

second_found : get_elem? (add_inline two_forms).forms 1 ≡ some (form 1)
unfolding init add_inline toggle_delete_button_visibility
second_found = refl

-- The third form takes the place of the second, which is deleted.
renumbered : (delete_inline 1 (add_inline two_forms)).forms ≡ form 0 ∷ form 1 ∷ []
unfolding init add_inline toggle_delete_button_visibility delete_inline renumber remove_at
renumbered = refl

Clicks-IsWithin_example : IsWithin (delete_inline 1 (add_inline two_forms))
Clicks-IsWithin_example =
    Clicks-IsWithin
      (and_then (add_click buttons.0)
        (and_then (delete_click 1 (form 1) second_found refl buttons.1) no_click))
      two_forms-IsWithin

key_first : is_first (dashed (codes "key")) (codes "id_") ≡ true
unfolding is_first starts_with
key_first = refl

update_text-text_of_example :
    update_text (codes "key") 2 (text_of (label none)) ≡ text_of (label (some 2))
update_text-text_of_example =
    update_text-text_of (codes "key") (codes "id_") 2 (label none) refl key_first refl

update_text_test : update_text (codes "key") 12 (codes "id_key-7-name") ≡ codes "id_key-12-name"
unfolding update_text starts_with decimal
update_text_test = refl

-- Two forms, of which the first goes, and a third that comes before.
abbrev label_events : List Event
label_events = added 0 (codes "b #4x") ∷ removed 1 ∷ []

left_labels :
    get_elem? (changes label_events (codes "a #7" ∷ codes "c #9" ∷ [])) 1 ≡ some (codes "c #9")
unfolding changes change insert_label remove_label
left_labels = refl

run_labels-number_example :
    (length (run_labels (codes "a #7" ∷ codes "c #9" ∷ []) label_events)
      ≡ length (changes label_events (codes "a #7" ∷ codes "c #9" ∷ [])))
    × (get_elem? (run_labels (codes "a #7" ∷ codes "c #9" ∷ []) label_events) 1
        ≡ some (codes "c " ++ b'#' ∷ (decimal 2 ++ [])))
run_labels-number_example =
    run_labels-number (added 0 (codes "b #4x")) (removed 1 ∷ []) (codes "a #7" ∷ codes "c #9" ∷ [])
      1 (codes "c ") (codes "9") [] left_labels (refl, (refl, tt)) (refl, tt) (λ e. cc) refl tt
