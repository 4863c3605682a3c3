-- ===== src/SelectBox/Move.antt =====
-- What `move` and `move_all` do to the two caches and to the two boxes.
pub mod Values
pub mod Exact
use Prim.Native.String.{String}
use text.Mathlib.Text.{◌==◌ as str_eq}
use text.Mathlib.TextEquality.{eq_iff}
use text.Mathlib.TextPositions.{eq_refl}
use agentsecrets_server.Prelude.{
  ◌≡◌, refl, ap, ◌∙◌, inl, inr, Bool, true, false, ◌&&◌, Option, some, List, [], ◌∷◌, ◌++◌, map,
  arith, if◌then◌else◌, Bool-cases, keep,
}
use agentsecrets_server.SelectBox.{
  Node, Item, Box, Page, assign, node_of, option_of, is_displayed, redisplay, add_to_cache,
  cache_contains, delete_value, delete_from_cache, move_present, move_option, move_options,
  move_with,
}
use agentsecrets_server.SelectBox.Filter.{assign_self, assign_ne, Shows}

abbrev pub chosen : Bool → Item → Bool
chosen all o = if all then true else o.selected

-- The loop on the two lists of nodes alone.
abbrev pub moved_one : Bool → Item → List Node → List Node → List Node × List Node
moved_one true o ns ms = (delete_value o.value ns, ms ++ node_of o ∷ [])
moved_one false o ns ms = (ns, ms)

pub moved : Bool → List Item → List Node → List Node → List Node × List Node
moved all [] ns ms = (ns, ms)
moved all (o ∷ os) ns ms =
    let r = moved_one (chosen all o && cache_contains ns o.value) o ns ms in moved all os r.0 r.1

-- The page holds these two caches, and everything else is as in `p`.
pub record Holds (from to : String) (ns ms : List Node) (p p' : Page) : Type 0 where
  pub source : p'.cache from ≡ some ns
  pub target : p'.cache to ≡ some ms
  pub others : (j : String) → str_eq from j ≡ false → str_eq to j ≡ false → p'.cache j ≡ p.cache j
  pub boxes : p'.boxes ≡ p.boxes

module _ (from to : String) (distinct : str_eq from to ≡ false) where
  to_ne_from : str_eq to from ≡ false
  to_ne_from = ground (arith, eq_iff from to, eq_iff to from)

  move_present_lem :
      (o : Item) (ns ms : List Node) (p q : Page)
      → Holds from to ns ms q p
      → (p' : Page) × (move_present true from to o p ≡ some p')
        × Holds from to (delete_value o.value ns) (ms ++ node_of o ∷ []) q p'
  unfolding move_present add_to_cache delete_from_cache
  move_present_lem o ns ms p q h =
      let left : List Node = delete_value o.value ns in
      let grown : List Node = ms ++ node_of o ∷ [] in
      let added : String → Option (List Node) = assign p.cache to grown in
      (
        record p { cache = assign added from left },
        simp (h.target, h.source, to_ne_from),
        record {
          source = assign_self added from left;
          target = assign_ne added from left to distinct ∙ assign_self p.cache to grown;
          others = λ j a b.
              assign_ne added from left j a ∙ assign_ne p.cache to grown j b ∙ h.others j a b;
          boxes = h.boxes;
        },
      )

  move_option_lem :
      (picked : Bool) (o : Item) (ns ms : List Node) (p q : Page)
      → Holds from to ns ms q p
      → (p' : Page) × (move_option from to picked o p ≡ some p')
        × Holds from to
            (moved_one (picked && cache_contains ns o.value) o ns ms).0
            (moved_one (picked && cache_contains ns o.value) o ns ms).1
            q
            p'
  unfolding move_option
  move_option_lem false o ns ms p q h = (p, refl, h)
  move_option_lem true o ns ms p q h = elim (Bool-cases (cache_contains ns o.value)) [
    | inl there ↦ rw (h.source, there) (move_present_lem o ns ms p q h)
    | inr absent ↦ rw (h.source, absent) (p, unfold move_present in refl, h)
  ]

  -- The loop returns, and its caches are those of `moved`.
  pub move_options_lem :
      (all : Bool) (os : List Item) (ns ms : List Node) (p q : Page)
      → Holds from to ns ms q p
      → (p' : Page) × (move_options all from to os p ≡ some p')
        × Holds from to (moved all os ns ms).0 (moved all os ns ms).1 q p'
  unfolding move_options moved
  move_options_lem all [] ns ms p q h = (p, refl, h)
  move_options_lem all (o ∷ os) ns ms p q h =
      let r = moved_one (chosen all o && cache_contains ns o.value) o ns ms in
      let (p₁, e₁, h₁) = move_option_lem (chosen all o) o ns ms p q h in
      let (p₂, e₂, h₂) = move_options_lem all os r.0 r.1 p₁ q h₁ in (p₂, rw e₁ e₂, h₂)

  -- `move` (and `move_all`) return where both boxes and caches are there. Both boxes then show their
  -- caches, which are those of `moved`, and no other cache has changed.
  pub move_with_lem :
      (all : Bool) (ns ms : List Node) (box target : Box) (p : Page)
      → p.cache from ≡ some ns
      → p.cache to ≡ some ms
      → p.boxes from ≡ some box
      → p.boxes to ≡ some target
      → (p' : Page) × (move_with all from to p ≡ some p')
        × Shows from (moved all box.options ns ms).0 p'
        × Shows to (moved all box.options ns ms).1 p'
        × ((j : String) → str_eq from j ≡ false → str_eq to j ≡ false → p'.cache j ≡ p.cache j)
  unfolding move_with redisplay
  move_with_lem all ns ms box target p hf ht bf bt =
      let start : Holds from to ns ms p p = record {
        source = hf;
        target = ht;
        others = λ j a b. refl;
        boxes = refl;
      } in
      let (q, e, h) = move_options_lem all box.options ns ms p p start in
      let left : List Node = (moved all box.options ns ms).0 in
      let grown : List Node = (moved all box.options ns ms).1 in
      let source_box : Box = record box { options = map option_of (keep is_displayed left) } in
      let target_box : Box = record target { options = map option_of (keep is_displayed grown) } in
      let first : String → Option Box = assign q.boxes from source_box in
      (
        record q { boxes = assign first to target_box },
        simp (
          bf,
          e,
          h.source,
          h.target,
          ap (λ (b : String → Option Box). b from) h.boxes ∙ bf,
          distinct,
          ap (λ (b : String → Option Box). b to) h.boxes ∙ bt,
        ),
        record {
          cached = h.source;
          box = source_box;
          there =
              assign_ne first to target_box from to_ne_from ∙ assign_self q.boxes from source_box;
          shown = refl;
        },
        record {
          cached = h.target;
          box = target_box;
          there = assign_self first to target_box;
          shown = refl;
        },
        h.others,
      )
