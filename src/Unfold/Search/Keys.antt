-- ===== src/Unfold/Search/Keys.antt =====
-- Which command the arrow keys lead to.
use agentsecrets_server.Prelude.{
  ℕ, zero, suc, ◌+◌, ◌≤◌, ◌<◌, List, [], ◌∷◌, some, Bool, true, false, ltb, length, get_elem?, ◌≡◌,
  refl, ap, ◌∙◌, arith,
}
use native.Mathlib.Nat.{zero-add}
use agentsecrets_server.Unfold.History.{Command, add_to_history}
use agentsecrets_server.Unfold.Search.{
  Search, current_item, next_item, select_item, handle_content_loaded, command_results,
}

-- The arrow down, a number of times.
abbrev pub presses : ℕ → Search → Search
presses zero s = s
presses (suc k) s = presses k (next_item s)

presses-index :
    (k : ℕ) (s : Search)
    → s.current_index + k ≤ s.total_items
    → presses k s ≡ record s { current_index = s.current_index + k }
unfolding next_item
presses-index zero s h = ap (λ (n : ℕ). record s { current_index = n }) (omega arith)
presses-index (suc k) s h =
    let at = λ (n : ℕ). record s { current_index = n } in
    ap (λ (n : ℕ). presses k (at n)) (ground arith)
    ∙ presses-index k (at (s.current_index + 1)) (omega arith)
    ∙ ap at (omega arith)

presses-last :
    (k : ℕ) (s : Search)
    → s.current_index ≤ s.total_items
    → s.total_items ≤ s.current_index + k
    → (presses k s).current_index ≡ s.total_items
unfolding next_item
presses-last zero s low high = omega arith
presses-last (suc k) s low high = presses-last k (next_item s) (ground arith) (ground arith)

get_elem?-pos : (es : List Command) (i : ℕ) (c : Command) → get_elem? es i ≡ some c → i < length es
get_elem?-pos [] i c h = cc
get_elem?-pos (e ∷ es) zero c h = omega arith
get_elem?-pos (e ∷ es) (suc i) c h = omega (arith, get_elem?-pos es i c h)

-- The page when the results of a search have been loaded.
abbrev pub loaded : List Command → List Command → Search → Search
loaded es shown s = handle_content_loaded command_results (some es) shown s

abbrev found : List Command → Search → Search
found es s = record s {
  items = some es;
  total_items = length es;
  current_index = 0;
  has_results = true;
}

positive : (n : ℕ) → 0 < n → ltb 0 n ≡ true
positive n h = ground arith

loaded-found :
    (es shown : List Command) (s : Search) → 0 < length es → loaded es shown s ≡ found es s
unfolding handle_content_loaded
loaded-found [] shown s h = absurd (omega arith)
loaded-found (e ∷ es) shown s h = rw (positive (suc (length es)) h) refl

-- The page after a selection that adds the command to the history.
abbrev remembered : Bool → Command → Search → Search
remembered new_tab c s =
    let history = add_to_history (record c { favorite = false }) s.stored in
    record s {
      command_history = history;
      stored = some history;
      opened = (c.link, new_tab) ∷ s.opened;
    }

select_item-opened :
    (add_history new_tab : Bool) (s : Search) (c : Command)
    → current_item s.items s.current_index ≡ some c
    → (t : Search) × (select_item add_history new_tab s ≡ some t)
      × (t.opened ≡ (c.link, new_tab) ∷ s.opened)
unfolding select_item
select_item-opened true new_tab s c h = (remembered new_tab c s, rw h refl, refl)
select_item-opened false new_tab s c h =
    (record s { opened = (c.link, new_tab) ∷ s.opened }, rw h refl, refl)

current_item-suc : (es : List Command) (i : ℕ) → current_item (some es) (0 + suc i) ≡ get_elem? es i
unfolding current_item
current_item-suc es i = rw zero-add refl

-- Each result can be reached by the keys: when the results have been loaded, and the arrow down has
-- been pressed once more than the number of the result, selecting returns and opens its link. However
-- often the arrow is pressed, the index does not pass the number of results.
pub select_item-presses :
    (es shown : List Command) (s : Search) (add_history new_tab : Bool)
    → 0 < length es
    → ((i : ℕ) (c : Command)
        → get_elem? es i ≡ some c
        → (t : Search) × (select_item add_history new_tab (presses (suc i) (loaded es shown s))
            ≡ some t)
          × (t.opened ≡ (c.link, new_tab) ∷ s.opened))
      × ((k : ℕ) → length es ≤ k → (presses k (loaded es shown s)).current_index ≡ length es)
select_item-presses es shown s add_history new_tab there = rw (loaded-found es shown s there) (
  λ i c h. rw (presses-index (suc i) (found es s) (omega (arith, get_elem?-pos es i c h))) (
      select_item-opened add_history new_tab (record (found es s) { current_index = 0 + suc i }) c
        (current_item-suc es i ∙ h)),
  λ k h. presses-last k (found es s) (omega arith) (omega arith),
)
