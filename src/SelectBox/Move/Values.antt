-- ===== src/SelectBox/Move/Values.antt =====
-- Which values the two caches hold after a move.
use Prim.Native.String.{String}
use text.Mathlib.Text.{◌==◌ as str_eq}
use text.Mathlib.TextEquality.{eq_iff}
use agentsecrets_server.Prelude.{
  ℕ, ◌+◌, ◌≡◌, refl, ◌∙◌, inl, inr, Bool, true, false, ◌&&◌, some, List, [], ◌∷◌, ◌++◌, arith,
  if◌then◌else◌, Bool-cases,
}
use agentsecrets_server.SelectBox.{
  Node, Item, Page, node_of, cache_contains, without_value, delete_value, move_with, Box,
}
use agentsecrets_server.SelectBox.Move.{chosen, moved_one, moved, move_with_lem}
use agentsecrets_server.SelectBox.Filter.{Shows}

-- How many nodes of a list have the value.
pub count_value : String → List Node → ℕ
count_value v [] = 0
count_value v (n ∷ ns) = (if str_eq n.value v then 1 else 0) + count_value v ns

count_value-append :
    (v : String) (ns ms : List Node)
    → count_value v (ns ++ ms) ≡ count_value v ns + count_value v ms
unfolding count_value
count_value-append v [] ms = omega arith
count_value-append v (n ∷ ns) ms = omega (arith, count_value-append v ns ms)

without_value-present :
    (w : String) (ns : List Node)
    → cache_contains ns w ≡ true
    → (rest : List Node) × (without_value w ns ≡ some rest)
      × ((v : String) → (if str_eq w v then 1 else 0) + count_value v rest ≡ count_value v ns)
unfolding cache_contains without_value count_value
without_value-present w [] h = cc
without_value-present w (n ∷ ns) h = elim (Bool-cases (str_eq n.value w)) [
  | inl same ↦ (ns, rw same, λ v. rw ((eq_iff n.value w).0 same))
  | inr other ↦
      let (rest, e, counts) = without_value-present w ns (ground arith) in
      (n ∷ rest, rw (other, e), λ v. omega (arith, counts v))
]

count_value-delete_value :
    (w v : String) (ns : List Node)
    → cache_contains ns w ≡ true
    → (if str_eq w v then 1 else 0) + count_value v (delete_value w ns) ≡ count_value v ns
unfolding delete_value
count_value-delete_value w v ns h =
    let (rest, e, counts) = without_value-present w ns h in rw (e, delete_value) (counts v)

count_value-single :
    (v : String) (n : Node) → count_value v (n ∷ []) ≡ (if str_eq n.value v then 1 else 0) + 0
unfolding count_value
count_value-single v n = refl

count_value-moved_one :
    (v : String) (all : Bool) (o : Item) (ns ms : List Node)
    → count_value v (moved_one (chosen all o && cache_contains ns o.value) o ns ms).0
        + count_value v (moved_one (chosen all o && cache_contains ns o.value) o ns ms).1
      ≡ count_value v ns + count_value v ms
count_value-moved_one v all o ns ms = by_test (chosen all o) (cache_contains ns o.value) refl
  where
    by_test :
        (a b : Bool)
        → cache_contains ns o.value ≡ b
        → count_value v (moved_one (a && b) o ns ms).0
            + count_value v (moved_one (a && b) o ns ms).1
          ≡ count_value v ns + count_value v ms
    by_test true true e = omega (
      arith,
      count_value-append v ms (node_of o ∷ []),
      count_value-delete_value o.value v ns e,
      count_value-single v (node_of o),
    )
    by_test true false e = refl
    by_test false b e = refl

count_value-moved :
    (v : String) (all : Bool) (os : List Item) (ns ms : List Node)
    → count_value v (moved all os ns ms).0 + count_value v (moved all os ns ms).1
      ≡ count_value v ns + count_value v ms
unfolding moved
count_value-moved v all [] ns ms = refl
count_value-moved v all (o ∷ os) ns ms =
    let r = moved_one (chosen all o && cache_contains ns o.value) o ns ms in
    count_value-moved v all os r.0 r.1 ∙ count_value-moved_one v all o ns ms

-- `move` and `move_all` lose no value and invent none: whatever is selected, the two caches together
-- hold each value as often as before, and both boxes show their caches.
count_value-move_with :
    (from to : String) (all : Bool) (ns ms : List Node) (box target : Box) (p : Page)
    → str_eq from to ≡ false
    → p.cache from ≡ some ns
    → p.cache to ≡ some ms
    → p.boxes from ≡ some box
    → p.boxes to ≡ some target
    → (ns' ms' : List Node) × (p' : Page) × (move_with all from to p ≡ some p')
      × Shows from ns' p'
      × Shows to ms' p'
      × ((v : String) → count_value v ns' + count_value v ms' ≡ count_value v ns + count_value v ms)
count_value-move_with from to all ns ms box target p d hf ht bf bt =
    let (p', e, shows_from, shows_to, _) =
      move_with_lem from to d all ns ms box target p hf ht bf bt in
    (
      (moved all box.options ns ms).0,
      (moved all box.options ns ms).1,
      p',
      e,
      shows_from,
      shows_to,
      λ v. count_value-moved v all box.options ns ms,
    )
