-- ===== src/SelectBox/Move/Exact.antt =====
-- Exactly which nodes a move takes, where no value stands twice.
use Prim.Native.String.{String}
use text.Mathlib.Text.{◌==◌ as str_eq}
use text.Mathlib.TextEquality.{eq_iff}
use mathlib.Core.Path.{ap₂, subst}
use mathlib.Core.List.{append-nil, append_assoc}
use agentsecrets_server.Prelude.{
  ◌≡◌, refl, sym, ap, ◌∙◌, inl, inr, Bool, true, false, not, ◌&&◌, ◌||◌, some, List, [], ◌∷◌, ◌++◌,
  map, arith, Bool-cases, All, keep,
}
use agentsecrets_server.SelectBox.{
  Node, Item, Box, Page, node_of, cache_contains, without_value, delete_value, move_with,
}
use agentsecrets_server.SelectBox.Move.{chosen, moved, move_with_lem}
use agentsecrets_server.SelectBox.Filter.{Shows}

value_ne : String → Node → Bool
value_ne w n = not (str_eq n.value w)

-- Some chosen option has the value.
pub is_picked : Bool → List Item → String → Bool
is_picked all [] w = false
is_picked all (o ∷ os) w = (chosen all o && str_eq w o.value) || is_picked all os w

abbrev pub stays : Bool → List Item → Node → Bool
stays all os n = not (is_picked all os n.value)

-- The chosen options whose value is in the cache, as nodes.
abbrev takes : Bool → List Node → Item → Bool
takes all ns o = chosen all o && cache_contains ns o.value

unfoldable pub nodes_of : Bool → List Node → List Item → List Node
nodes_of all ns os = map node_of (keep (takes all ns) os)

-- No value twice.
abbrev pub DistinctNodes : List Node → Type 0
DistinctNodes [] = Unit
DistinctNodes (n ∷ ns) = (cache_contains ns n.value ≡ false) × DistinctNodes ns

abbrev pub DistinctItems : List Item → Type 0
DistinctItems [] = Unit
DistinctItems (o ∷ os) = All (λ (q : Item). str_eq q.value o.value ≡ false) os × DistinctItems os

keep-value_ne-absent :
    (w : String) (ns : List Node) → cache_contains ns w ≡ false → keep (value_ne w) ns ≡ ns
unfolding cache_contains value_ne
keep-value_ne-absent w [] h = refl
keep-value_ne-absent w (n ∷ ns) h = ground (arith, keep-value_ne-absent w ns)

without_value-Distinct :
    (w : String) (ns : List Node)
    → DistinctNodes ns
    → cache_contains ns w ≡ true
    → without_value w ns ≡ some (keep (value_ne w) ns)
unfolding cache_contains without_value value_ne
without_value-Distinct w [] d h = cc
without_value-Distinct w (n ∷ ns) d h = elim (Bool-cases (str_eq n.value w)) [
  | inl same ↦
      rw (same, keep)
        (ap some (sym (keep-value_ne-absent w ns (rw ((eq_iff n.value w).0 same) at d.0))))
  | inr other ↦ rw (other, keep) (rw (without_value-Distinct w ns d.1 (ground arith)))
]

cache_contains-keep :
    (w v : String) (ns : List Node)
    → str_eq v w ≡ false
    → cache_contains (keep (value_ne w) ns) v ≡ cache_contains ns v
unfolding cache_contains value_ne
cache_contains-keep w v [] h = refl
cache_contains-keep w v (n ∷ ns) h =
    ground (arith, cache_contains-keep w v ns h, eq_iff n.value w, eq_iff n.value v, eq_iff v w)

cache_contains-keep_absent :
    (p : Node → Bool) (v : String) (ns : List Node)
    → cache_contains ns v ≡ false
    → cache_contains (keep p ns) v ≡ false
unfolding cache_contains
cache_contains-keep_absent p v [] h = refl
cache_contains-keep_absent p v (n ∷ ns) h = ground (arith, cache_contains-keep_absent p v ns)

DistinctNodes-keep :
    (p : Node → Bool) (ns : List Node) → DistinctNodes ns → DistinctNodes (keep p ns)
DistinctNodes-keep p [] d = tt
DistinctNodes-keep p (n ∷ ns) d = elim (Bool-cases (p n)) [
  | inl e ↦ rw (e, keep) (cache_contains-keep_absent p n.value ns d.0, DistinctNodes-keep p ns d.1)
  | inr e ↦ rw (e, keep) (DistinctNodes-keep p ns d.1)
]

keep-keep :
    (all : Bool) (o : Item) (os : List Item) (ns : List Node)
    → chosen all o ≡ true
    → keep (stays all os) (keep (value_ne o.value) ns) ≡ keep (stays all (o ∷ os)) ns
unfolding value_ne is_picked
keep-keep all o os [] h = refl
keep-keep all o os (n ∷ ns) h = ground (arith, keep-keep all o os ns h)

keep-stays_unpicked :
    (all : Bool) (o : Item) (os : List Item) (ns : List Node)
    → chosen all o ≡ false
    → keep (stays all os) ns ≡ keep (stays all (o ∷ os)) ns
unfolding is_picked
keep-stays_unpicked all o os [] h = refl
keep-stays_unpicked all o os (n ∷ ns) h = ground (arith, keep-stays_unpicked all o os ns h)

keep-value_absent :
    (all : Bool) (o : Item) (os : List Item) (ns : List Node)
    → cache_contains ns o.value ≡ false
    → keep (stays all os) ns ≡ keep (stays all (o ∷ os)) ns
unfolding is_picked cache_contains
keep-value_absent all o os [] h = refl
keep-value_absent all o os (n ∷ ns) h = ground (arith, keep-value_absent all o os ns)

keep-stays_none : (all : Bool) (ns : List Node) → keep (stays all []) ns ≡ ns
unfolding is_picked
keep-stays_none all [] = refl
keep-stays_none all (n ∷ ns) = ap (n ∷◌) (keep-stays_none all ns)

delete_value-Distinct :
    (w : String) (ns : List Node)
    → DistinctNodes ns
    → cache_contains ns w ≡ true
    → delete_value w ns ≡ keep (value_ne w) ns
unfolding delete_value
delete_value-Distinct w ns d h = rw (delete_value, without_value-Distinct w ns d h)

nodes_of-taken :
    (all : Bool) (ns : List Node) (o : Item) (os : List Item)
    → chosen all o ≡ true
    → cache_contains ns o.value ≡ true
    → nodes_of all ns (o ∷ os) ≡ node_of o ∷ nodes_of all ns os
unfolding nodes_of
nodes_of-taken all ns o os h k = ground arith

nodes_of-left :
    (all : Bool) (ns : List Node) (o : Item) (os : List Item)
    → (chosen all o && cache_contains ns o.value) ≡ false
    → nodes_of all ns (o ∷ os) ≡ nodes_of all ns os
unfolding nodes_of
nodes_of-left all ns o os h = ground arith

-- Other options do not miss a node that is gone.
nodes_of-keep :
    (all : Bool) (w : String) (ns : List Node) (os : List Item)
    → All (λ (q : Item). str_eq q.value w ≡ false) os
    → nodes_of all (keep (value_ne w) ns) os ≡ nodes_of all ns os
unfolding nodes_of
nodes_of-keep all w ns [] d = refl
nodes_of-keep all w ns (o ∷ os) d =
    let same = cache_contains-keep w o.value ns d.0 in
    let rest = nodes_of-keep all w ns os d.1 in
    elim (Bool-cases (chosen all o && cache_contains ns o.value)) [
      | inl e ↦ rw (keep, same, e) (ap (node_of o ∷◌) rest)
      | inr e ↦ rw (keep, same, e) rest
    ]

nodes_of-none : (all : Bool) (ns : List Node) → nodes_of all ns [] ≡ []
unfolding nodes_of
nodes_of-none all ns = refl

abbrev both : List Node → List Node → List Node × List Node
both ns ms = (ns, ms)

moved-Distinct :
    (all : Bool) (os : List Item) (ns ms : List Node)
    → DistinctNodes ns
    → DistinctItems os
    → moved all os ns ms ≡ (keep (stays all os) ns, ms ++ nodes_of all ns os)
unfolding moved
moved-Distinct all [] ns ms dn di =
    ap₂ both (sym (keep-stays_none all ns))
      (sym (append-nil ms) ∙ ap (ms ++◌) (sym (nodes_of-none all ns)))
moved-Distinct all (o ∷ os) ns ms dn di = elim (Bool-cases (chosen all o)) [
  | inl picked ↦ elim (Bool-cases (cache_contains ns o.value)) [
    | inl there ↦
        rw (picked, there, delete_value-Distinct o.value ns dn there)
          (moved-Distinct all os (keep (value_ne o.value) ns) (ms ++ node_of o ∷ [])
              (DistinctNodes-keep (value_ne o.value) ns dn) di.1
            ∙ ap₂ both (keep-keep all o os ns picked) (
                append_assoc ms (node_of o ∷ []) _
                ∙ ap (ms ++◌) (
                    ap (node_of o ∷◌) (nodes_of-keep all o.value ns os di.0)
                    ∙ sym (nodes_of-taken all ns o os picked there))))
    | inr absent ↦
        rw (picked, absent)
          (moved-Distinct all os ns ms dn di.1
            ∙ ap₂ both (keep-value_absent all o os ns absent)
                (ap (ms ++◌) (sym (nodes_of-left all ns o os (rw (picked, absent) refl)))))
  ]
  | inr left ↦ rw left (
      moved-Distinct all os ns ms dn di.1
      ∙ ap₂ both (keep-stays_unpicked all o os ns left)
          (ap (ms ++◌) (sym (nodes_of-left all ns o os (rw left refl)))))
]

-- The options of a box and the nodes of its cache: no value twice.
pub record IsFaithful (os : List Item) (ns : List Node) : Type 0 where
  pub nodes_distinct : DistinctNodes ns
  pub items_distinct : DistinctItems os

-- Between two boxes with different ids, which are there with their caches, and where no value stands
-- twice in the source box nor twice in its cache: the move takes out of the source cache exactly the
-- nodes whose value a chosen option has (`move`: a selected one, `move_all`: any of the box) and
-- appends to the target cache, in their order, the chosen options whose value was in the source cache;
-- a chosen option that was not in the cache is not moved. Both boxes then show their caches.
pub move_with_exact :
    (from to : String) (all : Bool) (ns ms : List Node) (box target : Box) (p : Page)
    → str_eq from to ≡ false
    → p.cache from ≡ some ns
    → p.cache to ≡ some ms
    → p.boxes from ≡ some box
    → p.boxes to ≡ some target
    → IsFaithful box.options ns
    → (p' : Page) × (move_with all from to p ≡ some p')
      × Shows from (keep (stays all box.options) ns) p'
      × Shows to (ms ++ nodes_of all ns box.options) p'
move_with_exact from to all ns ms box target p d hf ht bf bt faithful =
    let (p', e, shows_from, shows_to, _) =
      move_with_lem from to d all ns ms box target p hf ht bf bt in
    let parts =
      moved-Distinct all box.options ns ms faithful.nodes_distinct faithful.items_distinct in
    (
      p',
      e,
      subst (λ l. Shows from l p') (ap (λ (r : List Node × List Node). r.0) parts) shows_from,
      subst (λ l. Shows to l p') (ap (λ (r : List Node × List Node). r.1) parts) shows_to,
    )
