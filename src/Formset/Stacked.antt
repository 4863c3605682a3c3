-- ===== src/Formset/Stacked.antt =====
-- inlines.js: what tabular and stacked inlines do with a row that is added or removed: the numbers in
-- the labels, the fields that are filled from others, and the widgets that are made again.
pub mod Labels
use agentsecrets_server.Prelude.{
  ℕ, zero, suc, ◌+◌, Bool, true, false, ◌&&◌, Option, none, some, List, [], ◌∷◌, ◌++◌,
  if◌then◌else◌, map, ◌==◌,
}
use agentsecrets_server.Text.{codes, is_digit}
use agentsecrets_server.Text.Decimal.{decimal}
use agentsecrets_server.Formset.Names.{digit_next}

-- `html.replace(/(#\d+)/g, "#" + count)`; the first argument says that the digits of a match go on.
pub relabel : ℕ → Bool → List ℕ → List ℕ
relabel count going [] = []
relabel count going (c ∷ s) =
    let digits = relabel count true s in
    let others = relabel count false s in
    if going && is_digit c
    then digits
    else if c == b'#' && digit_next s
    then b'#' ∷ (decimal count ++ digits)
    else c ∷ others

-- `updateInlineLabel`, from the label `i` on.
pub update_labels : ℕ → List (List ℕ) → List (List ℕ)
unfolding relabel
update_labels i [] = []
update_labels i (html ∷ labels) = relabel (i + 1) false html ∷ update_labels (i + 1) labels

-- A field of the class `prepopulated_field`: the names that its input depends on, and its limit.
pub record Prepopulated : Type 0 where
  pub dependency_list : List (List ℕ)
  pub max_length : Option ℕ

-- A call of `prepopulate`.
pub record Call : Type 0 where
  pub dependencies : List (List ℕ)
  pub max_length : Option ℕ

abbrev pub id_text : Option (List ℕ) → List ℕ
id_text none = codes "undefined"
id_text (some id) = id

-- The fields of a row: whether an element `.field-name` is there, and the id of its first input.
pub record Row : Type 0 where
  pub in_fieldset : List ℕ → Option (Option (List ℕ))
  pub in_row : List ℕ → Option (List ℕ)
  pub prepopulated : List Prepopulated

-- The tabular inline looks for `.field-name` in the row, the stacked one for `.form-row .field-name`
-- and then for `.form-row.field-name`.
abbrev pub dependency_id : Bool → Row → List ℕ → Option (List ℕ)
dependency_id stacked row name = found stacked (row.in_fieldset name) (row.in_row name)
  where
    found : Bool → Option (Option (List ℕ)) → Option (List ℕ) → Option (List ℕ)
    found false fieldset id = id
    found true none id = id
    found true (some id) other = id

abbrev call_for : Bool → Row → Prepopulated → List Call
call_for stacked row p =
    made
      (map (λ (name : List ℕ). b'#' ∷ id_text (dependency_id stacked row name)) p.dependency_list)
  where
    made : List (List ℕ) → List Call
    made [] = []
    made (d ∷ dependencies) =
        record { dependencies = d ∷ dependencies; max_length = p.max_length } ∷ []

-- `initPrepopulatedFields`
pub init_prepopulated_fields : Bool → Row → List Prepopulated → List Call
init_prepopulated_fields stacked row [] = []
init_prepopulated_fields stacked row (p ∷ fields) =
    call_for stacked row p ++ init_prepopulated_fields stacked row fields

-- A form comes in at a place, before the template, or goes; the labels are those of `.inline_label` in
-- the order of the page, the template's included.
pub data Event : Type 0 where
  added : ℕ → List ℕ → Event
  removed : ℕ → Event

unfoldable pub insert_label : ℕ → List ℕ → List (List ℕ) → List (List ℕ)
insert_label zero html labels = html ∷ labels
insert_label (suc n) html [] = html ∷ []
insert_label (suc n) html (l ∷ labels) = l ∷ insert_label n html labels

unfoldable pub remove_label : ℕ → List (List ℕ) → List (List ℕ)
remove_label n [] = []
remove_label zero (l ∷ labels) = labels
remove_label (suc n) (l ∷ labels) = l ∷ remove_label n labels

unfoldable pub change : Event → List (List ℕ) → List (List ℕ)
unfolding insert_label remove_label
change (added n html) labels = insert_label n html labels
change (removed n) labels = remove_label n labels

unfoldable pub changes : List Event → List (List ℕ) → List (List ℕ)
unfolding change
changes [] labels = labels
changes (e ∷ events) labels = changes events (change e labels)

-- The callbacks `added` and `removed` of a stacked inline, of the labels.
pub run_labels : List (List ℕ) → List Event → List (List ℕ)
unfolding update_labels change
run_labels labels [] = labels
run_labels labels (e ∷ events) = run_labels (update_labels 0 (change e labels)) events

-- The widgets that are made again after a row was added: the calendars and clocks, and the filters of
-- the selects, each with the id of its select and its field's name.
pub data Widget : Type 0 where
  shortcuts_removed : Widget
  shortcuts_init : Widget
  select_filter_init : List ℕ → List ℕ → Bool → Widget

pub record Filtered : Type 0 where
  pub id : List ℕ
  pub field_name : List ℕ

-- `reinitDateTimeShortCuts`, where that script is loaded.
pub reinit_date_time_shortcuts : Bool → List Widget
reinit_date_time_shortcuts false = []
reinit_date_time_shortcuts true = shortcuts_removed ∷ shortcuts_init ∷ []

abbrev init_filter : Bool → Filtered → Widget
init_filter stacked f = select_filter_init f.id f.field_name stacked

-- `updateSelectFilter`, of the elements `.selectfilter` and `.selectfilterstacked`.
pub update_select_filter : Bool → List Filtered → List Filtered → List Widget
update_select_filter false side stacked = []
update_select_filter true side stacked =
    map (init_filter false) side ++ map (init_filter true) stacked
