-- ===== src/Unfold/Search.antt =====
-- staticfiles/unfold/js/app.js: the search form, the search drop-down and the search command.
pub mod Keys
use Prim.Native.String.{String}
use text.Mathlib.Text.{◌==◌ as str_eq}
use agentsecrets_server.Prelude.{
  ◌>>=◌, ℕ, zero, suc, ◌+◌, ◌-◌, List, [], ◌∷◌, Option, none, some, Bool, true, false, not, ◌&&◌,
  ◌||◌, if◌then◌else◌, ltb, length, get_elem?,
}
use agentsecrets_server.Unfold.History.{
  Command, add_to_history, remove_from_history, toggle_favorite,
}

-- `document.activeElement`: its tag in lower case, and `isContentEditable`.
pub record Active : Type 0 where
  pub tag : String
  pub editable : Bool

abbrev pub is_typing : Active → Bool
is_typing a = str_eq a.tag "input" || str_eq a.tag "textarea" || a.editable

-- `applyShortcut` of the form and of the drop-down, with their keys: whether the input is focused.
unfoldable pub form_shortcut : String → Active → Bool
form_shortcut key a = str_eq key "/" && not (is_typing a)

unfoldable pub dropdown_shortcut : String → Active → Bool
dropdown_shortcut key a = str_eq key "t" && not (is_typing a)

-- The methods that the drop-down and the command share: `maxItem()` and `totalItems` are `total`.
abbrev pub next_index : ℕ → ℕ → ℕ
next_index total current = if ltb current total then current + 1 else current

abbrev pub previous_index : ℕ → ℕ
previous_index current = if ltb 1 current then current - 1 else current

-- `this.items[this.currentIndex - 1]`; without items, or without an item there, the caller throws.
pub current_item {ℓ} : {A : Type ℓ} → Option (List A) → ℕ → Option A
current_item none current = none
current_item (some items) zero = none
current_item (some items) (suc i) = get_elem? items i

-- `searchCommand`. The items are the commands that the list elements carry, `results` is whether the
-- element of the results has content, `focused` whether the input has been focused, and `opened` holds
-- the links that were opened, with whether each was opened in a new tab.
pub record Search : Type 0 where
  pub items : Option (List Command)
  pub has_results : Bool
  pub open_command_results : Bool
  pub current_index : ℕ
  pub total_items : ℕ
  pub input : List ℕ
  pub results : Bool
  pub overflow_hidden : Bool
  pub focused : Bool
  pub stored : Option (List Command)
  pub command_history : List Command
  pub opened : List (String × Bool)

abbrev pub is_blank : List ℕ → Bool
is_blank [] = true
is_blank (c ∷ s) = false

unfoldable pub toggle_body_overflow : Search → Search
toggle_body_overflow s = record s { overflow_hidden = not s.overflow_hidden }

-- `shown` is `#command-history li`.
unfoldable pub handle_open : List Command → Search → Search
unfolding toggle_body_overflow
handle_open shown s =
    let t = toggle_body_overflow (record s { open_command_results = true }) in
    record t { focused = true; items = some shown; total_items = length shown }

unfoldable pub handle_shortcut : String → Bool → Bool → Active → List Command → Search → Search
unfolding handle_open
handle_shortcut key meta ctrl a shown s =
    if str_eq key "k" && (meta || ctrl) && not (is_typing a) then handle_open shown s else s

unfoldable pub handle_escape : Search → Search
unfolding toggle_body_overflow
handle_escape s =
    if is_blank s.input
    then record (toggle_body_overflow s) {
      open_command_results = false;
      results = false;
      items = none;
      total_items = 0;
      current_index = 0;
    }
    else record s { input = [] }

-- The targets of `handleContentLoaded`.
pub data Target : Type 0 where
  command_results command_results_list elsewhere : Target

abbrev pub count_items : Option (List Command) → ℕ
count_items none = 0
count_items (some items) = length items

abbrev pub is_results : Target → Bool
is_results command_results = true
is_results command_results_list = false
is_results elsewhere = false

-- `list` holds the items of `#command-results-list`, if it is there, and `shown` those of the history.
pub load_content : Target → Option (List Command) → List Command → Search → Search
load_content target list shown s =
    let total = count_items list in
    let found = ltb 0 total in
    record s {
      items = if found then list else some shown;
      total_items = total;
      current_index = if is_results target then 0 else s.current_index;
      has_results = found;
    }

unfoldable pub handle_content_loaded :
    Target → Option (List Command) → List Command → Search → Search
unfolding load_content
handle_content_loaded command_results list shown s = load_content command_results list shown s
handle_content_loaded command_results_list list shown s =
    load_content command_results_list list shown s
handle_content_loaded elsewhere list shown s = s

unfoldable pub handle_outside_click : Search → Search
unfolding toggle_body_overflow
handle_outside_click s =
    toggle_body_overflow (record s { input = []; open_command_results = false })

unfoldable pub next_item : Search → Search
next_item s = record s { current_index = next_index s.total_items s.current_index }

unfoldable pub prev_item : Search → Search
prev_item s = record s { current_index = previous_index s.current_index }

unfoldable pub select_item : Bool → Bool → Search → Option Search
unfolding current_item
select_item add_history new_tab s = do
  command ← current_item s.items s.current_index
  let history = add_to_history (record command { favorite = false }) s.stored
  let t : Search =
      if add_history then record s { command_history = history; stored = some history } else s
  some (record t { opened = (command.link, new_tab) ∷ t.opened })

unfoldable pub remove_command : ℕ → Search → Search
remove_command index s =
    let history = remove_from_history index s.stored in
    record s { command_history = history; stored = some history }

unfoldable pub toggle_command : ℕ → Search → Option Search
toggle_command index s = do
  history ← toggle_favorite index s.stored
  some (record s { command_history = history; stored = some history })

-- `searchDropdown`: the index, `items`, which the script never sets, and where the page goes.
pub record Dropdown : Type 0 where
  pub current_index : ℕ
  pub items : Option (List String)
  pub location : Option String

unfoldable pub dropdown_next : ℕ → Dropdown → Dropdown
dropdown_next max_item d = record d { current_index = next_index max_item d.current_index }

unfoldable pub dropdown_prev : Dropdown → Dropdown
dropdown_prev d = record d { current_index = previous_index d.current_index }

unfoldable pub dropdown_select : Dropdown → Option Dropdown
unfolding current_item
dropdown_select d = do
  href ← current_item d.items d.current_index
  some (record d { location = some href })
