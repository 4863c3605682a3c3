-- ===== src/SelectBox/Sort.antt =====
-- `SelectBox.sort`: the cache sorted by the texts in lower case.
use Prim.Native.String.{String}
use text.Mathlib.Text.{◌==◌ as str_eq}
use agentsecrets_server.Prelude.{
  ◌>>=◌, ℕ, List, [], ◌∷◌, Option, some, Bool, true, false, ◌≡◌, refl, if◌then◌else◌, keep, ltb,
  ◌==◌, arith,
}
use agentsecrets_server.Prelude.Sort.{sort as stable_sort}
use agentsecrets_server.Prelude.Sort.Order.{IsComparator, IsSorted, sort-IsSorted, keep-sort}
use agentsecrets_server.Text.{CaseMapping}
use agentsecrets_server.Text.Search.{equal_text}
use agentsecrets_server.SelectBox.{Node, Page, assign}
use agentsecrets_server.SelectBox.Filter.{assign_self, assign_ne}

-- `a > b` for strings: by the first code unit in which they differ.
pub is_greater : List ℕ → List ℕ → Bool
is_greater [] b = false
is_greater (c ∷ a) [] = true
is_greater (c ∷ a) (d ∷ b) = let rest = is_greater a b in if c == d then rest else ltb d c

is_greater_asym : (a b : List ℕ) → is_greater a b ≡ true → is_greater b a ≡ false
unfolding is_greater
is_greater_asym [] b h = cc
is_greater_asym (c ∷ a) [] h = refl
is_greater_asym (c ∷ a) (d ∷ b) h = ground (arith, is_greater_asym a b)

is_greater_trans :
    (a b c : List ℕ) → is_greater a b ≡ false → is_greater b c ≡ false → is_greater a c ≡ false
unfolding is_greater
is_greater_trans [] b c h k = refl
is_greater_trans (x ∷ a) [] c h k = cc
is_greater_trans (x ∷ a) (y ∷ b) [] h k = cc
is_greater_trans (x ∷ a) (y ∷ b) (z ∷ c) h k = ground (arith, is_greater_trans a b c)

is_greater_same :
    (t a b : List ℕ) → equal_text t a ≡ true → equal_text t b ≡ true → is_greater a b ≡ false
unfolding is_greater
is_greater_same [] [] [] h k = refl
is_greater_same [] [] (z ∷ b) h k = refl
is_greater_same [] (y ∷ a) b h k = cc
is_greater_same (x ∷ t) [] b h k = cc
is_greater_same (x ∷ t) (y ∷ a) [] h k = cc
is_greater_same (x ∷ t) (y ∷ a) (z ∷ b) h k = ground (arith, is_greater_same t a b)

module _ (host : CaseMapping) where
  open host use {to_lower_case}

  -- The comparator is positive.
  abbrev pub comes_after : Node → Node → Bool
  comes_after a b = is_greater (to_lower_case a.text) (to_lower_case b.text)

  unfoldable pub sort : String → Page → Option Page
  unfolding is_greater stable_sort
  sort id p = do
    nodes ← p.cache id
    some (record p { cache = assign p.cache id (stable_sort comes_after nodes) })

  comes_after-IsComparator : IsComparator comes_after
  comes_after-IsComparator = record {
    asymmetric = λ x y. is_greater_asym (to_lower_case x.text) (to_lower_case y.text);
    transitive = λ x y z.
        is_greater_trans (to_lower_case x.text) (to_lower_case y.text) (to_lower_case z.text);
  }

  -- The text is the given one in lower case.
  abbrev pub has_text : List ℕ → Node → Bool
  has_text t n = equal_text t (to_lower_case n.text)

  -- Sorting returns where the cache is there. The texts of the sorted nodes, in lower case, do not
  -- decrease; for each text, the nodes that have it in lower case are the same as before and in the
  -- same order; and no box and no other cache has changed.
  pub sort_lem :
      (id : String) (nodes : List Node) (p : Page)
      → p.cache id ≡ some nodes
      → (sorted : List Node) × (p' : Page) × (sort id p ≡ some p')
        × (p'.cache id ≡ some sorted)
        × IsSorted comes_after sorted
        × ((t : List ℕ) → keep (has_text t) sorted ≡ keep (has_text t) nodes)
        × (p'.boxes ≡ p.boxes)
        × ((j : String) → str_eq id j ≡ false → p'.cache j ≡ p.cache j)
  unfolding sort
  sort_lem id nodes p h =
      let sorted = stable_sort comes_after nodes in
      (
        sorted,
        record p { cache = assign p.cache id sorted },
        rw h refl,
        assign_self p.cache id sorted,
        sort-IsSorted comes_after comes_after-IsComparator nodes,
        λ t.
            keep-sort comes_after (has_text t)
              (λ x y. is_greater_same t (to_lower_case x.text) (to_lower_case y.text)) nodes,
        refl,
        λ j ne. assign_ne p.cache id sorted j ne,
      )
