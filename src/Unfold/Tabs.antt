-- ===== src/Unfold/Tabs.antt =====
-- staticfiles/unfold/js/app.js, `tabNavigation`: tabs that do not fit move to a drop-down and back.
pub mod Resize
use agentsecrets_server.Prelude.{ℕ, List, [], ◌∷◌, Bool, true, false, if◌then◌else◌, ltb}

-- A tab and its `offsetWidth`.
pub record Tab : Type 0 where
  pub name : ℕ
  pub width : ℕ

-- The tabs of the list and of the drop-down and the stack of widths, all from the last to the first,
-- and the class `hidden` of the drop-down.
pub record Tabs : Type 0 where
  pub items : List Tab
  pub dropdown : List Tab
  pub widths : List ℕ
  pub hidden : Bool

-- What the browser measures at a resize: the width of the content, that of the tabs with these items,
-- and whether a width is less than what is available beside these items.
pub record Layout : Type 0 where
  pub content_width : ℕ
  pub tabs_width : List Tab → ℕ
  pub is_available : ℕ → List Tab → Bool

abbrev pub is_nil {ℓ} : {A : Type ℓ} → List A → Bool
is_nil [] = true
is_nil (x ∷ xs) = false

module _ (l : Layout) where
  abbrev pub overflows : List Tab → Bool
  overflows items = ltb l.content_width (l.tabs_width items)

  -- The branch that moves tabs out; it calls the handler again while the tabs overflow.
  pub move_out : List Tab → List Tab → List ℕ → Tabs
  move_out [] dropdown widths = record {
    items = [];
    dropdown = dropdown;
    widths = widths;
    hidden = is_nil dropdown;
  }
  move_out (tab ∷ items) dropdown widths =
      let again = move_out items (tab ∷ dropdown) (tab.width ∷ widths) in
      let done : Tabs = record {
        items = items;
        dropdown = tab ∷ dropdown;
        widths = tab.width ∷ widths;
        hidden = false;
      } in
      if overflows items then again else done

  -- The branch that may move one tab back.
  pub move_back : Tabs → List Tab → List ℕ → Tabs
  move_back s (tab ∷ dropdown) (width ∷ widths) =
      if l.is_available width s.items
      then record {
        items = tab ∷ s.items;
        dropdown = dropdown;
        widths = widths;
        hidden = is_nil dropdown;
      }
      else record s { hidden = false }
  move_back s [] widths = record s { hidden = true }
  move_back s (tab ∷ dropdown) [] = record s { hidden = false }

  unfoldable pub resize : Tabs → Tabs
  unfolding move_out move_back
  resize s =
      if overflows s.items
      then move_out s.items s.dropdown s.widths
      else move_back s s.dropdown s.widths
