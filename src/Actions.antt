-- ===== src/Actions.antt =====
-- staticfiles/admin/js/actions.js: the check boxes of a result list, the select-across question and
-- the counter, as one state with a handler for each event. A check box is its place in the list.
mod Tests
pub mod Reach
pub mod Range
use agentsecrets_server.Prelude.{
  ℕ, zero, suc, ◌+◌, min, max, Bool, true, false, not, ◌&&◌, Option, none, some, List, [], ◌∷◌, leb,
  ◌==◌, if◌then◌else◌, length,
}

-- A check box and the class `selected` of its row.
pub record Row : Type 0 where
  pub checked : Bool
  pub selected : Bool

-- The page. `across` is the value of the select-across inputs; the four `…_hidden` are the class
-- `hidden` of the parts that `show` and `hide` find; `container_selected` is the class `selected` of
-- the actions' container; `counter` is what the counter's text says; `total` is its data attribute.
pub record Page : Type 0 where
  pub rows : List Row
  pub all_toggle : Bool
  pub across : ℕ
  pub clears_hidden : Bool
  pub questions_hidden : Bool
  pub all_hidden : Bool
  pub counter_hidden : Bool
  pub container_selected : Bool
  pub counter : ℕ × ℕ
  pub total : ℕ
  pub last_checked : Option ℕ
  pub shift_pressed : Bool
  pub list_editable_changed : Bool

pub show_question : Page → Page
show_question p = record p { clears_hidden = true; questions_hidden = false; all_hidden = true }

pub show_clear : Page → Page
show_clear p = record p {
  clears_hidden = false;
  questions_hidden = true;
  container_selected = false;
  all_hidden = false;
  counter_hidden = true;
}

pub reset : Page → Page
reset p = record p {
  clears_hidden = true;
  questions_hidden = true;
  all_hidden = true;
  counter_hidden = false;
}

pub clear_across : Page → Page
unfolding reset
clear_across p = record (reset p) { across = 0; container_selected = false }

-- The rows whose place passes the test get the state and the class; `i` is the place of the first.
pub mark : (ℕ → Bool) → Bool → ℕ → List Row → List Row
mark among checked i [] = []
mark among checked i (r ∷ rows) =
    (if among i then record { checked = checked; selected = checked } else r)
    ∷ mark among checked (i + 1) rows

pub checker : (ℕ → Bool) → Bool → Page → Page
unfolding show_question reset mark
checker among checked p =
    let q = if checked then show_question p else reset p in
    record q { rows = mark among checked 0 q.rows }

pub count_checked : List Row → ℕ
count_checked [] = 0
count_checked (r ∷ rows) = (if r.checked then 1 else 0) + count_checked rows

pub update_counter : Page → Page
unfolding show_question clear_across count_checked
update_counter p =
    let sel = count_checked p.rows in
    let all = sel == length p.rows in
    let q = record p { counter = (sel, p.total); all_toggle = all } in
    if all then show_question q else clear_across q

abbrev pub everywhere : ℕ → Bool
everywhere i = true

-- `affectedCheckboxes`: the target alone, or the range from the last one that was checked.
abbrev pub in_range : ℕ → ℕ → ℕ → Bool
in_range target last i = leb (min target last) i && leb i (max target last)

pub affected : ℕ → Bool → Option ℕ → ℕ → Bool
affected target with_modifier none i = i == target
affected target with_modifier (some last) i =
    if with_modifier && not (last == target) then in_range target last i else i == target

-- The browser has set the box before its event is handled.
pub touch : ℕ → Bool → List Row → List Row
touch target checked [] = []
touch zero checked (r ∷ rows) = record r { checked = checked } ∷ rows
touch (suc n) checked (r ∷ rows) = r ∷ touch n checked rows

-- The handlers. `checked` is what the user has set the box to.
unfoldable pub click_all_toggle : Bool → Page → Page
click_all_toggle checked p =
    update_counter (checker everywhere checked (record p { all_toggle = checked }))

unfoldable pub click_question : Page → Page
click_question p = show_clear (record p { across = 1 })

unfoldable pub click_clear : Page → Page
click_clear p =
    update_counter (checker everywhere false (clear_across (record p { all_toggle = false })))

unfoldable pub change_select : ℕ → Bool → Page → Page
change_select target checked p =
    let q = record p { rows = touch target checked p.rows } in
    let marked =
      update_counter (checker (affected target q.shift_pressed q.last_checked) checked q) in
    record marked { last_checked = some target }

unfoldable pub change_other : Page → Page
change_other p = record p { list_editable_changed = true }

unfoldable pub key : Bool → Page → Page
key shift_key p = record p { shift_pressed = shift_key }

unfoldable pub page_show : Page → Page
page_show p = update_counter p

-- Whether the click on a button is prevented; `confirm` is the user's answer to a text.
pub data Warning : Type 0 where
  unsaved_lost unsaved_action no_changes : Warning

unfoldable pub go_prevented : (Warning → Bool) → Page → Bool
go_prevented confirm p = p.list_editable_changed && not (confirm unsaved_lost)

unfoldable pub save_prevented : (Warning → Bool) → Bool → Page → Bool
save_prevented confirm action_chosen p =
    action_chosen && not (confirm (if p.list_editable_changed then unsaved_action else no_changes))
