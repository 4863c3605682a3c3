-- ===== src/SelectFilter/Moves.antt =====
-- What a click on a button of the field does to both boxes and to the warning.
use Prim.Native.String.{String}
use text.Mathlib.Text.{◌==◌ as str_eq}
use text.Mathlib.TextEquality.{eq_iff}
use agentsecrets_server.Prelude.{
  ℕ, List, ◌++◌, Option, some, Bool, true, false, not, if◌then◌else◌, length, keep, ltb, ◌≡◌, refl,
  ◌∙◌, arith,
}
use agentsecrets_server.Text.{CaseMapping}
use agentsecrets_server.SelectBox.{Node, Box, Page, move_with, tokens_of, get_hidden_node_count}
use agentsecrets_server.SelectBox.Filter.{Shows, Filtered, filter_lem}
use agentsecrets_server.SelectBox.Move.Exact.{stays, nodes_of, IsFaithful, move_with_exact}
use agentsecrets_server.SelectFilter.{
  click_add, click_choose_all, Ids, Field, any_selected, is_empty, refresh_filtered_warning,
  refresh_icons, refresh_filtered_selects, move_selection,
}

abbrev pub hidden_count : List Node → ℕ
hidden_count nodes = length (keep (λ n. not n.displayed) nodes)

str_eq_sym : (s t : String) → str_eq s t ≡ false → str_eq t s ≡ false
str_eq_sym s t h = ground (arith, h, eq_iff s t, eq_iff t s)

-- A page that keeps the cache and the box of `id` still shows it.
Shows-kept :
    (id : String) (nodes : List Node) (p q : Page)
    → q.cache id ≡ p.cache id
    → q.boxes id ≡ p.boxes id
    → Shows id nodes p
    → Shows id nodes q
Shows-kept id nodes p q c b s = record {
  cached = c ∙ s.cached;
  box = s.box;
  there = b ∙ s.there;
  shown = s.shown;
}

module _ (host : CaseMapping) (ids : Ids) where
  -- Both boxes show their caches, filtered by the texts of their inputs, and the warning counts the
  -- hidden nodes of the chosen box.
  pub record Refreshed (fs ts : List Node) (input selected_input : List ℕ) (g : Field)
      : Type 0 where
    pub available : List Node
    pub chosen : List Node
    pub from_filtered : Filtered host (tokens_of host input) fs available
    pub to_filtered : Filtered host (tokens_of host selected_input) ts chosen
    pub shows_from : Shows ids.from available g.page
    pub shows_to : Shows ids.to chosen g.page
    pub counted : g.warning ≡ hidden_count chosen
    pub marked : g.with_filtered ≡ ltb 0 (hidden_count chosen)

  refresh_filtered_selects_lem :
      (fs ts : List Node) (f : Field)
      → str_eq ids.from ids.to ≡ false
      → Shows ids.from fs f.page
      → Shows ids.to ts f.page
      → (g : Field) × (refresh_filtered_selects host ids f ≡ some g)
        × Refreshed fs ts f.input f.selected_input (refresh_filtered_warning ids g)
  unfolding refresh_filtered_selects refresh_filtered_warning get_hidden_node_count
  refresh_filtered_selects_lem fs ts f ne sf st =
      let (available, p, ep, from_filtered, shows_from, others) =
        filter_lem host ids.from f.input fs sf.box f.page sf.cached sf.there in
      let kept = others ids.to ne in
      let shows_to = Shows-kept ids.to ts f.page p kept.0 kept.1 st in
      let (chosen, q, eq, to_filtered, shows_to', others') =
        filter_lem host ids.to f.selected_input ts shows_to.box p shows_to.cached shows_to.there in
      let kept' = others' ids.from (str_eq_sym ids.from ids.to ne) in
      (
        record f { page = q },
        rw ep (rw eq refl),
        record {
          available = available;
          chosen = chosen;
          from_filtered = from_filtered;
          to_filtered = to_filtered;
          shows_from = Shows-kept ids.from available p q kept'.0 kept'.1 shows_from;
          shows_to = shows_to';
          counted = rw (shows_to'.cached) refl;
          marked = rw (shows_to'.cached) refl;
        },
      )

  refresh_icons_lem :
      (fs ts : List Node) (f : Field)
      → Shows ids.from fs f.page
      → Shows ids.to ts f.page
      → (a r aa ra : Bool) × (refresh_icons ids f
          ≡ some (record f {
            add_disabled = a;
            remove_disabled = r;
            add_all_disabled = aa;
            remove_all_disabled = ra;
          }))
  unfolding refresh_icons
  refresh_icons_lem fs ts f sf st = (
    not (any_selected sf.box.options),
    not (any_selected st.box.options),
    is_empty sf.box.options,
    is_empty st.box.options,
    rw (sf.there, st.there) refl,
  )

  -- The steps after the move.
  move_selection_rest :
      (all : Bool) (from to : String) (fs ts : List Node) (f : Field) (p : Page)
      → str_eq ids.from ids.to ≡ false
      → move_with all from to f.page ≡ some p
      → Shows ids.from fs p
      → Shows ids.to ts p
      → (g : Field) × (move_selection host ids false all from to f ≡ some g)
        × Refreshed fs ts f.input f.selected_input g
  unfolding move_selection
  move_selection_rest all from to fs ts f p ne moved sf st =
      let (a, r, aa, ra, icons) = refresh_icons_lem fs ts (record f { page = p }) sf st in
      let (g, selects, refreshed) =
        refresh_filtered_selects_lem fs ts
          (record f {
            page = p;
            add_disabled = a;
            remove_disabled = r;
            add_all_disabled = aa;
            remove_all_disabled = ra;
          })
          ne sf st in
      (refresh_filtered_warning ids g, rw moved (rw icons (rw selects refl)), refreshed)

  -- The button that chooses the selected options, or `all`.
  abbrev pub click_choose : Bool → Field → Option Field
  click_choose all f = if all then click_choose_all host ids f else click_add host ids f

  abbrev pub choose_disabled : Bool → Field → Bool
  choose_disabled all f = if all then f.add_all_disabled else f.add_disabled

  -- Where the two boxes are there with their caches and have different ids, and no value stands twice
  -- in the available box nor twice in its cache: a click on a button that chooses and is not disabled
  -- takes the nodes of the selected options (or of all the options of the box) out of the available
  -- nodes and appends to the chosen ones those of these options whose value was among the available
  -- nodes; an option that was not is not moved. Then both boxes show their nodes as the two inputs
  -- filter them, and the warning counts the chosen nodes that are hidden.
  pub click_choose_exact :
      (all : Bool) (ns ms : List Node) (box target : Box) (f : Field)
      → choose_disabled all f ≡ false
      → str_eq ids.from ids.to ≡ false
      → f.page.cache ids.from ≡ some ns
      → f.page.cache ids.to ≡ some ms
      → f.page.boxes ids.from ≡ some box
      → f.page.boxes ids.to ≡ some target
      → IsFaithful box.options ns
      → (g : Field) × (click_choose all f ≡ some g)
        × Refreshed
            (keep (stays all box.options) ns)
            (ms ++ nodes_of all ns box.options)
            f.input
            f.selected_input
            g
  unfolding click_choose_all click_add
  click_choose_exact all ns ms box target f enabled ne hf ht bf bt faithful =
      let (p, moved, sf, st) =
        move_with_exact ids.from ids.to all ns ms box target f.page ne hf ht bf bt faithful in
      let (g, e, refreshed) =
        move_selection_rest all ids.from ids.to (keep (stays all box.options) ns)
          (ms ++ nodes_of all ns box.options) f p ne moved sf st in
      (g, by_button all enabled e, refreshed)
    where
      by_button :
          (all : Bool) {g : Field}
          → choose_disabled all f ≡ false
          → move_selection host ids false all ids.from ids.to f ≡ some g
          → click_choose all f ≡ some g
      by_button true enabled e = rw enabled e
      by_button false enabled e = rw enabled e
