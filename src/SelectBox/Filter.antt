-- ===== src/SelectBox/Filter.antt =====
-- What `filter` and `redisplay` show: exactly the options whose text holds every word.
use Prim.Native.String.{◌∷◌, String}
use mathlib.Core.Path.{fun_ext}
use text.Mathlib.Text.{◌==◌ as str_eq}
use text.Mathlib.TextPositions.{eq_refl}
use agentsecrets_server.Prelude.{
  ℕ, ◌+◌, ◌≡◌, refl, ap, ◌∙◌, ◌↔◌, inl, inr, true, false, not, Option, some, List, [], ◌∷◌, map,
  arith, Option-cases, length, All, keep, ◌>>=◌,
}
use agentsecrets_server.Text.{CaseMapping}
use agentsecrets_server.Text.Search.{
  IsInfix, includes-IsInfix, IsInfix-includes, split_spaces-nil, includes_nil,
}
use agentsecrets_server.SelectBox.{
  keep, map, ℕ, List, Option, Node, Box, Page, assign, option_of, is_displayed, redisplay,
  all_included, tokens_of, filter_node, filter, get_hidden_node_count,
}

module _ {ℓ} {A : Type ℓ} (f : String → Option A) (k : String) (v : A) where
  pub assign_self : assign f k v k ≡ some v
  assign_self = simp eq_refl

  pub assign_ne : (j : String) → str_eq k j ≡ false → assign f k v j ≡ f j
  assign_ne j h = rw h

  pub assign-assign : (w : A) → assign (assign f k w) k v ≡ assign f k v
  assign-assign w = fun_ext λ j. ground arith

-- A box shows the displayed nodes of its cache, in the cache's order.
pub record Shows (id : String) (nodes : List Node) (p : Page) : Type 0 where
  pub cached : p.cache id ≡ some nodes
  pub box : Box
  pub there : p.boxes id ≡ some box
  pub shown : box.options ≡ map option_of (keep is_displayed nodes)

-- A node holds every word of the filter.
abbrev pub HoldsAll : List (List ℕ) → List ℕ → Type 0
HoldsAll tokens text = All (λ token. IsInfix token text) tokens

all_included-HoldsAll :
    (tokens : List (List ℕ)) (text : List ℕ)
    → all_included tokens text ≡ true
    → HoldsAll tokens text
unfolding all_included
all_included-HoldsAll [] text h = tt
all_included-HoldsAll (token ∷ tokens) text h =
    (includes-IsInfix token text (ground arith), all_included-HoldsAll tokens text (ground arith))

HoldsAll-all_included :
    (tokens : List (List ℕ)) (text : List ℕ)
    → HoldsAll tokens text
    → all_included tokens text ≡ true
unfolding all_included
HoldsAll-all_included [] text h = refl
HoldsAll-all_included (token ∷ tokens) text h =
    ground (arith, IsInfix-includes token text h.0, HoldsAll-all_included tokens text h.1)

module _ (host : CaseMapping) where
  open host use {to_lower_case, settled_stays}

  -- The nodes after a filter: the same, each displayed exactly when its text holds every word.
  abbrev pub Filtered : List (List ℕ) → List Node → List Node → Type 0
  Filtered tokens [] [] = Unit
  Filtered tokens [] (m ∷ ms) = ⊥
  Filtered tokens (n ∷ ns) [] = ⊥
  Filtered tokens (n ∷ ns) (m ∷ ms) =
      (m.value ≡ n.value)
      × (m.text ≡ n.text)
      × ((m.displayed ≡ true) ↔ HoldsAll tokens (to_lower_case n.text))
      × Filtered tokens ns ms

  filter_nodes-Filtered :
      (tokens : List (List ℕ)) (nodes : List Node)
      → Filtered tokens nodes (map (filter_node host tokens) nodes)
  unfolding filter_node
  filter_nodes-Filtered tokens [] = tt
  filter_nodes-Filtered tokens (n ∷ nodes) = (
    refl,
    refl,
    (
      all_included-HoldsAll tokens (to_lower_case n.text),
      HoldsAll-all_included tokens (to_lower_case n.text),
    ),
    filter_nodes-Filtered tokens nodes,
  )

  -- The page after `filter`.
  abbrev filtered_page : String → List ℕ → List Node → Box → Page → Page
  filtered_page id text nodes box p =
      let new : List Node = map (filter_node host (tokens_of host text)) nodes in
      record {
        cache = assign p.cache id new;
        boxes = assign p.boxes id (record box { options = map option_of (keep is_displayed new) });
      }

  filter-eq :
      (id : String) (text : List ℕ) (nodes : List Node) (box : Box) (p : Page)
      → p.cache id ≡ some nodes
      → p.boxes id ≡ some box
      → filter host id text p ≡ some (filtered_page id text nodes box p)
  unfolding filter redisplay
  filter-eq id text nodes box p hc hb = simp (hc, hb, eq_refl)

  -- `filter` always returns where the cache and the box are there. Afterwards each node is displayed
  -- exactly when its text, in lower case, holds every word of the filter; the box shows the displayed
  -- ones in order; and no other cache or box has changed.
  pub filter_lem :
      (id : String) (text : List ℕ) (nodes : List Node) (box : Box) (p : Page)
      → p.cache id ≡ some nodes
      → p.boxes id ≡ some box
      → (new : List Node) × (p' : Page) × (filter host id text p ≡ some p')
        × Filtered (tokens_of host text) nodes new
        × Shows id new p'
        × ((j : String) → str_eq id j ≡ false → (p'.cache j ≡ p.cache j) × (p'.boxes j ≡ p.boxes j))
  filter_lem id text nodes box p hc hb =
      let new : List Node = map (filter_node host (tokens_of host text)) nodes in
      let shown : Box = record box { options = map option_of (keep is_displayed new) } in
      (
        new,
        filtered_page id text nodes box p,
        filter-eq id text nodes box p hc hb,
        filter_nodes-Filtered (tokens_of host text) nodes,
        record {
          cached = assign_self p.cache id new;
          box = shown;
          there = assign_self p.boxes id shown;
          shown = refl;
        },
        λ j ne. (assign_ne p.cache id new j ne, assign_ne p.boxes id shown j ne),
      )

  filter_node_twice :
      (s t : List (List ℕ)) (nodes : List Node)
      → map (filter_node host t) (map (filter_node host s) nodes) ≡ map (filter_node host t) nodes
  unfolding filter_node
  filter_node_twice s t [] = refl
  filter_node_twice s t (n ∷ nodes) = ap (filter_node host t n ∷◌) (filter_node_twice s t nodes)

  -- A filter forgets the one before: typing further, or clearing the field, gives what the last text
  -- alone gives, page and all.
  filter-filter :
      (id : String) (first second : List ℕ) (p : Page)
      → (b : Box) × (p.boxes id ≡ some b)
      → (filter host id first p >>= filter host id second) ≡ filter host id second p
  filter-filter id first second p (box, hb) = elim (Option-cases (p.cache id)) [
    | inl missing ↦ unfold filter in simp missing
    | inr (nodes, hc) ↦
        let new : List Node = map (filter_node host (tokens_of host first)) nodes in
        let shown : Box = record box { options = map option_of (keep is_displayed new) } in
        rw (filter-eq id first nodes box p hc hb, filter-eq id second nodes box p hc hb)
          (filter-eq id second new shown (filtered_page id first nodes box p)
              (assign_self p.cache id new) (assign_self p.boxes id shown)
            ∙ simp (filter_node_twice, assign-assign))
  ]

length-filtered :
    (nodes : List Node)
    → length (keep (λ n. not n.displayed) nodes) + length (map option_of (keep is_displayed nodes))
      ≡ length nodes
length-filtered [] = omega arith
length-filtered (n ∷ nodes) = ground (arith, length-filtered nodes)

-- Where a box shows its cache, the hidden nodes and the options of the page make up the cache.
hidden-Shows :
    (id : String) (nodes : List Node) (p : Page) (h : Shows id nodes p)
    → get_hidden_node_count id p + length h.box.options ≡ length nodes
unfolding get_hidden_node_count
hidden-Shows id nodes p h = rw (h.cached, h.shown) (length-filtered nodes)

-- The node as it is when nothing is filtered.
abbrev pub displayed_node : Node → Node
displayed_node n = record n { displayed = true }

pub keep-displayed :
    (nodes : List Node) → keep is_displayed (map displayed_node nodes) ≡ map displayed_node nodes
keep-displayed [] = refl
keep-displayed (n ∷ nodes) = ap (displayed_node n ∷◌) (keep-displayed nodes)

module _ (host : CaseMapping) where
  open host use {to_lower_case, settled_stays}

  tokens_of-nil : tokens_of host [] ≡ [] ∷ []
  unfolding tokens_of
  tokens_of-nil = rw (settled_stays [] tt) (split_spaces-nil false)

  filter_node-nil :
      (nodes : List Node) → map (filter_node host ([] ∷ [])) nodes ≡ map displayed_node nodes
  unfolding filter_node all_included
  filter_node-nil [] = refl
  filter_node-nil (n ∷ nodes) = rw (includes_nil (to_lower_case n.text), filter_node-nil nodes) refl

  -- The empty filter displays every node.
  pub filter-nil :
      (id : String) (nodes : List Node) (box : Box) (p : Page)
      → p.cache id ≡ some nodes
      → p.boxes id ≡ some box
      → filter host id [] p
        ≡ some (record {
          cache = assign p.cache id (map displayed_node nodes);
          boxes =
              assign p.boxes id (record box { options = map option_of (map displayed_node nodes) });
        })
  filter-nil id nodes box p hc hb =
      filter-eq host id [] nodes box p hc hb
      ∙ rw (tokens_of-nil, filter_node-nil, keep-displayed) refl
