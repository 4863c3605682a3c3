-- ===== src/Unfold/Tests.antt =====
-- Concrete histories, searches and tabs, and the theorems on them.
use Prim.Native.String.{String}
use agentsecrets_server.Prelude.{
  ◌*◌, leb, ℕ, suc, ◌+◌, ◌≤◌, List, [], ◌∷◌, ◌++◌, none, some, true, false, take, drop, keep,
  get_elem?, length, ◌≡◌, refl, arith,
}
use agentsecrets_server.Text.{codes}
use agentsecrets_server.Unfold.History.{Command, add_to_history, toggle_favorite, toggled}
use agentsecrets_server.Unfold.History.Recent.{DistinctLinks, link_ne, add_to_history-recent}
use agentsecrets_server.Unfold.History.Favorites.{favorites_first, toggle_favorite-exact}
use agentsecrets_server.Unfold.Tabs.{Tab, Layout, overflows, resize}
use agentsecrets_server.Unfold.Tabs.Resize.{IsKept, Fits, start, resizes, resizes-IsKept-start}
use agentsecrets_server.Unfold.Search.{Search, select_item}
use agentsecrets_server.Unfold.Search.Keys.{presses, loaded, select_item-presses}

abbrev command : String → Command
command l = record { title = l; description = ""; link = l; favorite = false }

abbrev history : List Command
history = command "/a" ∷ command "/b" ∷ command "/c" ∷ []

history_distinct : DistinctLinks history
history_distinct = ((refl, (refl, tt)), ((refl, tt), (tt, tt)))

add_to_history-recent_example :
    (add_to_history (command "/b") (some history)
      ≡ take 10 (command "/b" ∷ keep (link_ne "/b") history))
    × DistinctLinks (add_to_history (command "/b") (some history))
    × (length (add_to_history (command "/b") (some history)) ≤ 10)
add_to_history-recent_example = add_to_history-recent (command "/b") (some history) history_distinct

toggle_favorite-exact_example :
    ((c : Command)
      → get_elem? history 2 ≡ some c
      → toggle_favorite 2 (some history)
        ≡ some (favorites_first (take 2 history ++ toggled c ∷ drop 3 history)))
    × (get_elem? history 2 ≡ none → toggle_favorite 2 (some history) ≡ none)
toggle_favorite-exact_example = toggle_favorite-exact 2 (some history)

abbrev page : Search
page = record {
  items = none;
  has_results = false;
  open_command_results = true;
  current_index = 3;
  total_items = 0;
  input = codes "a";
  results = false;
  overflow_hidden = true;
  focused = true;
  stored = some history;
  command_history = history;
  opened = [];
}

select_item-presses_example :
    ((i : ℕ) (c : Command)
      → get_elem? history i ≡ some c
      → (t : Search) × (select_item true false (presses (suc i) (loaded history [] page)) ≡ some t)
        × (t.opened ≡ (c.link, false) ∷ []))
    × ((k : ℕ) → 3 ≤ k → (presses k (loaded history [] page)).current_index ≡ 3)
select_item-presses_example = select_item-presses history [] page true false (omega arith)

abbrev tab : ℕ → Tab
tab n = record { name = n; width = 10 }

-- Each tab takes its width; the content has the width given.
abbrev narrow : ℕ → Layout
narrow width = record {
  content_width = width;
  tabs_width = λ items. 10 * length items;
  is_available = λ w items. leb (w + 10 * length items) width;
}

resizes-IsKept-start_example :
    IsKept
      (tab 1 ∷ tab 2 ∷ tab 3 ∷ [])
      (resizes (narrow 15 ∷ narrow 40 ∷ []) (start (tab 3 ∷ tab 2 ∷ tab 1 ∷ [])))
    × (overflows
            (narrow 5)
            (resizes (narrow 15 ∷ narrow 40 ∷ []) (start (tab 3 ∷ tab 2 ∷ tab 1 ∷ []))).items
          ≡ true
        → Fits (narrow 5) (
            resize
              (narrow 5)
              (resizes (narrow 15 ∷ narrow 40 ∷ []) (start (tab 3 ∷ tab 2 ∷ tab 1 ∷ [])))))
resizes-IsKept-start_example =
    resizes-IsKept-start (narrow 15 ∷ narrow 40 ∷ []) (narrow 5) (tab 3 ∷ tab 2 ∷ tab 1 ∷ [])
