-- ===== src/Unfold/Inlines/Tests.antt =====
-- Inline forms that come and go, and the theorem on them.
use agentsecrets_server.Prelude.{[], ◌∷◌, ◌++◌, none, some, true, false, length, ◌≡◌, refl, arith}
use agentsecrets_server.Text.{codes}
use agentsecrets_server.Unfold.Inlines.{
  Row, Inlines, on_add_row, on_link, add_inline, delete_inline, placeholder,
}
use agentsecrets_server.Unfold.Inlines.Button.{IsGuarded, Clicks-IsGuarded}
use agentsecrets_server.Unfold.Inlines.Valid.{IsValid}
use agentsecrets_server.Unfold.Inlines.Steps.{
  add_click, delete_click, no_click, and_then, Clicks-IsValid,
}

abbrev template : Row
template = record {
  content = record { before = codes "<input name="; tails = (placeholder ++ codes "-key>") ∷ [] };
  nested = some (record { before = []; tails = (placeholder ++ codes "-env-__prefix__>") ∷ [] });
  nested_add = some false;
  counter = some 0;
  last = true;
}

abbrev no_forms : Inlines
no_forms = record {
  rows = [];
  template = template;
  total_forms = 0;
  min_num_forms = 0;
  max_num_forms = 2;
  actions_hidden = false;
  add_row_hidden = false;
  link_hidden = false;
  empty = true;
}

no_forms-IsValid : IsValid no_forms
no_forms-IsValid = record {
  sequence = tt;
  template = (((codes "-key>", refl, refl), tt), ((codes "-env-__prefix__>", refl, refl), tt));
  total = refl;
  least = omega arith;
  most = omega arith;
  counters = tt;
  lasts = tt;
  emptiness = refl;
}

two_rows : length (add_inline on_link (add_inline on_add_row no_forms)).rows ≡ 2
unfolding add_inline
two_rows = refl

Clicks-IsValid_example :
    IsValid (delete_inline 0 (add_inline on_link (add_inline on_add_row no_forms)))
Clicks-IsValid_example =
    Clicks-IsValid
      (and_then (add_click on_add_row) (
        and_then (add_click on_link)
          (and_then (delete_click 0 (omega (arith, two_rows))) no_click)))
      no_forms-IsValid

abbrev flat_forms : Inlines
flat_forms = record no_forms { template = record template { nested_add = none } }

flat_forms-IsValid : IsValid flat_forms
flat_forms-IsValid = record {
  sequence = tt;
  template = no_forms-IsValid.template;
  total = refl;
  least = omega arith;
  most = omega arith;
  counters = tt;
  lasts = tt;
  emptiness = refl;
}

flat_rows : length (add_inline on_link (add_inline on_link flat_forms)).rows ≡ 2
unfolding add_inline
flat_rows = refl

Clicks-IsGuarded_example :
    IsGuarded (delete_inline 0 (add_inline on_link (add_inline on_link flat_forms)))
Clicks-IsGuarded_example =
    Clicks-IsGuarded
      (and_then (add_click on_link) (
        and_then (add_click on_link)
          (and_then (delete_click 0 (omega (arith, flat_rows))) no_click)))
      (refl, (refl, (tt, tt))) flat_forms-IsValid
      (record { forms_flat = tt; template_flat = refl; button = refl })

-- Where the template has a nested formset, that one's `.add-row` is shown in place of the own one.
stays_hidden :
    (delete_inline 0 (add_inline on_link (add_inline on_link no_forms))).add_row_hidden ≡ true
unfolding add_inline delete_inline
stays_hidden = refl
