-- ===== src/Prelude/Sort.antt =====
-- `Array.prototype.sort` with a comparator: the language says that the sort is stable, so for a
-- consistent comparator its result is that of an insertion sort.
pub mod Order
use mathlib.Core.List.{List, [], ◌∷◌}
use mathlib.Core.Bool.{Bool}
use agentsecrets_server.Prelude.Tests.{if◌then◌else◌}

module _ {ℓ} {A : Type ℓ} (after : A → A → Bool) where
  -- `after x y` says that the comparator of `x` and `y` is positive.
  unfoldable pub insert : A → List A → List A
  insert x [] = x ∷ []
  insert x (y ∷ ys) = if after x y then y ∷ insert x ys else x ∷ y ∷ ys

  unfoldable pub sort : List A → List A
  unfolding insert
  sort [] = []
  sort (x ∷ xs) = insert x (sort xs)
