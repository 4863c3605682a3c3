-- ===== src/Prelude/Sort/Order.antt =====
-- What a sort by a consistent comparator gives: the elements in order, and those that the comparator
-- takes for equal as they stood.
use mathlib.Core.Path.{◌≡◌, refl, ◌∙◌}
use mathlib.Core.Logic.{inl, inr}
use mathlib.Core.List.{List, [], ◌∷◌}
use mathlib.Core.Bool.{Bool, true, false}
use agentsecrets_server.Prelude.Tests.{Bool-cases}
use native.Mathlib.Omega.{arith}
use agentsecrets_server.Prelude.Lists.{All, All-map, keep}
use agentsecrets_server.Prelude.Sort.{insert, sort}

-- The comparator is consistent.
pub record IsComparator {ℓ} {A : Type ℓ} (after : A → A → Bool) : Type ℓ where
  pub asymmetric : (x y : A) → after x y ≡ true → after y x ≡ false
  pub transitive : (x y z : A) → after x y ≡ false → after y z ≡ false → after x z ≡ false

-- No element comes after one that follows it.
abbrev pub IsSorted {ℓ} : {A : Type ℓ} → (A → A → Bool) → List A → Type 0
IsSorted after [] = Unit
IsSorted after (x ∷ xs) = All (λ y. after x y ≡ false) xs × IsSorted after xs

module _ {ℓ} {A : Type ℓ} (after : A → A → Bool) where
  insert-All {κ} :
      (P : A → Type κ) (x : A) (ys : List A) → P x → All P ys → All P (insert after x ys)
  unfolding insert
  insert-All P x [] h k = (h, tt)
  insert-All P x (y ∷ ys) h k = elim (Bool-cases (after x y)) [
    | inl e ↦ rw e (k.0, insert-All P x ys h k.1)
    | inr e ↦ rw e (h, k)
  ]

  insert-IsSorted :
      IsComparator after
      → (x : A) (ys : List A) → IsSorted after ys
      → IsSorted after (insert after x ys)
  unfolding insert
  insert-IsSorted c x [] h = (tt, tt)
  insert-IsSorted c x (y ∷ ys) h = elim (Bool-cases (after x y)) [
    | inl e ↦ rw e (
      insert-All (λ z. after y z ≡ false) x ys (c.asymmetric x y e) h.0,
      insert-IsSorted c x ys h.1,
    )
    | inr e ↦ rw e ((e, All-map (λ z. c.transitive x y z e) ys h.0), h)
  ]

  pub sort-IsSorted : IsComparator after → (xs : List A) → IsSorted after (sort after xs)
  unfolding sort
  sort-IsSorted c [] = tt
  sort-IsSorted c (x ∷ xs) = insert-IsSorted c x (sort after xs) (sort-IsSorted c xs)

  module _ (p : A → Bool) (same : (x y : A) → p x ≡ true → p y ≡ true → after x y ≡ false) where
    keep-insert : (x : A) (ys : List A) → keep p (insert after x ys) ≡ keep p (x ∷ ys)
    unfolding insert
    keep-insert x [] = refl
    keep-insert x (y ∷ ys) = elim (Bool-cases (after x y)) [
      | inr e ↦ rw e refl
      | inl e ↦ rw e (ground (arith, keep-insert x ys, same x y, e))
    ]

    -- The elements of a class stay in the order they had.
    pub keep-sort : (xs : List A) → keep p (sort after xs) ≡ keep p xs
    unfolding sort
    keep-sort [] = refl
    keep-sort (x ∷ xs) = keep-insert x (sort after xs) ∙ ground (arith, keep-sort xs)
