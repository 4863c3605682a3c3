-- ===== src/SelectFilter.antt =====
-- staticfiles/admin/js/SelectFilter2.js: the two boxes of a field with their filters, buttons and
-- warning, and a handler for each event. An element that is not there makes a handler throw: `none`.
mod Tests
pub mod Submit
pub mod Arrows
pub mod Moves
use Prim.Native.String.{String}
use agentsecrets_server.Prelude.{
  ℕ, zero, suc, ◌+◌, ◌-◌, List, [], ◌∷◌, Option, none, some, Bool, true, false, not, ◌||◌,
  if◌then◌else◌, ◌==◌, ltb, length, ◌>>=◌,
}
use agentsecrets_server.Text.{CaseMapping}
use agentsecrets_server.SelectBox.{
  Item, Page, assign, filter, move_with, select_all, get_hidden_node_count, init,
}

-- The ids of the two boxes, `field_id + '_from'` and `field_id + '_to'`.
pub record Ids : Type 0 where
  pub from : String
  pub to : String

-- The page of SelectBox, the texts of the two filter inputs, the `disabled` of the four buttons, the
-- number in the warning and the class `selector-chosen--with-filtered`.
pub record Field : Type 0 where
  pub page : Page
  pub input : List ℕ
  pub selected_input : List ℕ
  pub add_disabled : Bool
  pub remove_disabled : Bool
  pub add_all_disabled : Bool
  pub remove_all_disabled : Bool
  pub warning : ℕ
  pub with_filtered : Bool

-- `select.selectedIndex`, where `none` is -1; a number that is no index selects nothing.
pub selected_index : List Item → Option ℕ
selected_index [] = none
selected_index (o ∷ options) =
    let rest = selected_index options in if o.selected then some 0 else (rest >>= λ i. some (i + 1))

pub set_selected_from : ℕ → Option ℕ → List Item → List Item
set_selected_from i index [] = []
set_selected_from i index (o ∷ options) =
    record o { selected = elim index [ none ↦ false | some k ↦ k == i ] }
    ∷ set_selected_from (i + 1) index options

abbrev pub set_selected_index : Option ℕ → List Item → List Item
set_selected_index index options = set_selected_from 0 index options

-- A select with `required` is valid when an option is selected.
pub any_selected : List Item → Bool
any_selected [] = false
any_selected (o ∷ options) = o.selected || any_selected options

abbrev pub is_empty : List Item → Bool
is_empty [] = true
is_empty (o ∷ options) = false

-- `document.getElementById(id).selectedIndex = index`
pub put_selected_index : String → Option ℕ → Page → Option Page
put_selected_index id index p = do
  box ← p.boxes id
  some (record p {
    boxes = assign p.boxes id (record box { options = set_selected_index index box.options });
  })

unfoldable pub refresh_filtered_warning : Ids → Field → Field
refresh_filtered_warning ids f =
    let count = get_hidden_node_count ids.to f.page in
    record f { warning = count; with_filtered = ltb 0 count }

unfoldable pub refresh_icons : Ids → Field → Option Field
unfolding any_selected
refresh_icons ids f = do
  from ← f.page.boxes ids.from
  to ← f.page.boxes ids.to
  some (record f {
    add_disabled = not (any_selected from.options);
    remove_disabled = not (any_selected to.options);
    add_all_disabled = is_empty from.options;
    remove_all_disabled = is_empty to.options;
  })

-- The index that the key right or left leaves, after the move: a box has `length` options then.
abbrev pub index_after_move : Option ℕ → ℕ → Option ℕ
index_after_move none length = none
index_after_move (some i) length =
    if i == length then (if length == 0 then none else some (length - 1)) else some i

-- The arrows down and up; `none` is -1, and what is below that selects nothing too.
abbrev pub index_down : Option ℕ → ℕ → Option ℕ
index_down none length = some 0
index_down (some i) length = if length == i + 1 then some 0 else some (i + 1)

abbrev pub index_up : Option ℕ → ℕ → Option ℕ
index_up none length = none
index_up (some zero) length = if length == 0 then none else some (length - 1)
index_up (some (suc i)) length = some i

unfoldable pub move_selected_index : (Option ℕ → ℕ → Option ℕ) → String → Field → Option Field
unfolding put_selected_index selected_index
move_selected_index next source f = do
  box ← f.page.boxes source
  p ← put_selected_index source (next (selected_index box.options) (length box.options)) f.page
  some (record f { page = p })

module _ (host : CaseMapping) (ids : Ids) where
  unfoldable pub refresh_filtered_selects : Field → Option Field
  refresh_filtered_selects f = do
    p ← filter host ids.from f.input f.page
    q ← filter host ids.to f.selected_input p
    some (record f { page = q })

  -- `move_selection`, for a button that is disabled or not: `all` is `move_all`.
  unfoldable pub move_selection : Bool → Bool → String → String → Field → Option Field
  unfolding refresh_filtered_selects refresh_filtered_warning refresh_icons
  move_selection disabled all from to f =
      let moved : Option Field = (do
        p ← move_with all from to f.page
        g ← refresh_icons ids (record f { page = p })
        h ← refresh_filtered_selects g
        some (refresh_filtered_warning ids h)) in
      if disabled then some f else moved

  unfoldable pub click_choose_all : Field → Option Field
  unfolding move_selection
  click_choose_all f = move_selection f.add_all_disabled true ids.from ids.to f

  unfoldable pub click_add : Field → Option Field
  unfolding move_selection
  click_add f = move_selection f.add_disabled false ids.from ids.to f

  unfoldable pub click_remove : Field → Option Field
  unfolding move_selection
  click_remove f = move_selection f.remove_disabled false ids.to ids.from f

  unfoldable pub click_clear_all : Field → Option Field
  unfolding move_selection
  click_clear_all f = move_selection f.remove_all_disabled true ids.to ids.from f

  -- The click on the warning.
  unfoldable pub click_warning : Field → Option Field
  click_warning f = do
    p ← filter host ids.to [] f.page
    refresh_icons ids (refresh_filtered_warning ids (record f { selected_input = []; page = p }))

  -- A change of one of the boxes, which the browser has made.
  unfoldable pub change_boxes : Field → Option Field
  change_boxes f = refresh_icons ids f

  -- A double click on an option, of the box `_to` or of the other.
  unfoldable pub double_click : Bool → Field → Option Field
  double_click in_to f = do
    p ←
        (if in_to
          then move_with false ids.to ids.from f.page
          else move_with false ids.from ids.to f.page)
    refresh_icons ids (record f { page = p })

  unfoldable pub submit : Field → Option Field
  submit f = do
    p ← filter host ids.to [] f.page
    q ← select_all ids.to p
    some (record f { page = q })

  -- The three handlers of the keys, for the box `source` and the other one. Key 13 is Enter.
  unfoldable pub filter_key_press : ℕ → String → String → Field → Option Field
  unfolding put_selected_index
  filter_key_press key source target f =
      let moved : Option Field = (do
        p ← put_selected_index source (some 0) f.page
        q ← move_with false source target p
        r ← put_selected_index source (some 0) q
        some (record f { page = r })) in
      if key == 13 then moved else some f

  -- `text` is the value of the input of the box.
  unfoldable pub filter_key_up : String → List ℕ → Field → Option Field
  unfolding put_selected_index selected_index
  filter_key_up source text f = do
    box ← f.page.boxes source
    p ← filter host source text f.page
    q ← put_selected_index source (selected_index box.options) p
    refresh_icons ids (refresh_filtered_warning ids (record f { page = q }))

  unfoldable pub move_across : String → String → Field → Option Field
  unfolding put_selected_index selected_index
  move_across source target f = do
    box ← f.page.boxes source
    p ← move_with false source target f.page
    g ← refresh_filtered_selects (record f { page = p })
    after ← g.page.boxes source
    q ←
        put_selected_index source
          (index_after_move (selected_index box.options) (length after.options)) g.page
    some (record (refresh_filtered_warning ids g) { page = q })

  -- `is_from` says whether the source is the box `_from`: 39 is the key right, 37 left, 40 down, 38 up.
  unfoldable pub filter_key_down : ℕ → Bool → Field → Option Field
  unfolding move_across move_selected_index
  filter_key_down key is_from f =
      let source = if is_from then ids.from else ids.to in
      let target = if is_from then ids.to else ids.from in
      if key == (if is_from then 39 else 37)
      then move_across source target f
      else if key == 40
      then move_selected_index index_down source f
      else if key == 38
      then move_selected_index index_up source f
      else some f

  -- The end of `init`, when the elements have been made.
  unfoldable pub start : Field → Option Field
  start f = do
    p ← init ids.from f.page
    q ← init ids.to p
    r ← move_with false ids.from ids.to q
    refresh_icons ids (record f { page = r })
