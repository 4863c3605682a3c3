-- ===== src/Actions/Tests.antt =====
-- A list of four rows, and the theorems on it.
use agentsecrets_server.Prelude.{
  ◌≤◌, ◌<◌, ◌≡◌, refl, ◌≢◌, ◌⊎◌, inl, true, false, none, some, [], ◌∷◌, arith, get_elem?, All,
}
use agentsecrets_server.Actions.{
  Row, Page, mark, count_checked, affected, touch, checker, update_counter, change_select,
  click_question, click_all_toggle, show_question, clear_across,
}
use agentsecrets_server.Actions.Reach.{
  IsConsistent, IsChecked, here, next, on_all_toggle, on_question, Steps-IsConsistent,
}
use agentsecrets_server.Actions.Range.{marked_row, change_select-range}

abbrev unmarked : Row
unmarked = record { checked = false; selected = false }

abbrev page : Page
page = record {
  rows = unmarked ∷ unmarked ∷ unmarked ∷ unmarked ∷ [];
  all_toggle = false;
  across = 0;
  clears_hidden = true;
  questions_hidden = true;
  all_hidden = true;
  counter_hidden = false;
  container_selected = false;
  counter = (0, 40);
  total = 40;
  last_checked = none;
  shift_pressed = false;
  list_editable_changed = false;
}

page-IsConsistent : IsConsistent page
unfolding count_checked
page-IsConsistent = record {
  marks = (refl, (refl, (refl, (refl, tt))));
  counts = refl;
  toggle = refl;
  across_all = inl refl;
  question = λ h. cc;
  cleared = λ h. cc;
}

-- All boxes at once, and then the question whether to take the whole list.
abbrev all_of_them : Page
all_of_them = click_question (click_all_toggle true page)

question_shown : (click_all_toggle true page).questions_hidden ≡ false
unfolding click_all_toggle checker update_counter show_question mark count_checked
question_shown = refl

Steps-IsConsistent_example :
    IsConsistent all_of_them × (all_of_them.across ≢ 0 → All IsChecked all_of_them.rows)
Steps-IsConsistent_example =
    Steps-IsConsistent (next (next here (on_all_toggle true)) (on_question question_shown))
      page-IsConsistent

-- The third box, after the first, with shift held.
abbrev shift_page : Page
shift_page = record page { shift_pressed = true; last_checked = some 0 }

three_rows :
    (change_select 2 true shift_page).rows
    ≡ marked_row true ∷ marked_row true ∷ marked_row true ∷ unmarked ∷ []
unfolding change_select checker update_counter affected touch mark count_checked clear_across
    show_question
three_rows = refl

change_select-range_example :
    (0 ≤ 1
      → 1 ≤ 2
      → 1 < 4
      → get_elem? (change_select 2 true shift_page).rows 1 ≡ some (marked_row true))
    × ((1 < 0) ⊎ (2 < 1) → get_elem? (change_select 2 true shift_page).rows 1 ≡ some unmarked)
change_select-range_example = change_select-range 2 0 1 true shift_page refl refl (omega arith)
