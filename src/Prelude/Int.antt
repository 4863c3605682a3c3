-- ===== src/Prelude/Int.antt =====
-- Signed integers over the native numbers, under the library's names (its ℤ stands on another ℕ).
use Prim.Native.Nat.{ℕ, zero, suc, ◌+◌, ◌-◌, ◌*◌}
use agentsecrets_server.Prelude.Tests.{ltb, if◌then◌else◌}
use mathlib.Core.Path.{◌≡◌, refl}
use native.Mathlib.Omega.{arith}

-- `negsuc n` is -(n + 1).
pub data ℤ : Type 0 where
  pos : ℕ → ℤ
  negsuc : ℕ → ℤ

unfoldable pub inc : ℤ → ℤ
inc (pos n) = pos (n + 1)
inc (negsuc zero) = pos 0
inc (negsuc (suc n)) = negsuc n

unfoldable pub dec : ℤ → ℤ
dec (pos zero) = negsuc 0
dec (pos (suc n)) = pos n
dec (negsuc n) = negsuc (n + 1)

pub inc-dec : (y : ℤ) → inc (dec y) ≡ y
unfolding inc dec
inc-dec (pos zero) = refl
inc-dec (pos (suc n)) = ground arith
inc-dec (negsuc n) = ground arith

pub dec-inc : (y : ℤ) → dec (inc y) ≡ y
unfolding inc dec
dec-inc (pos n) = ground arith
dec-inc (negsuc zero) = refl
dec-inc (negsuc (suc n)) = ground arith

unfoldable pub neg : ℤ → ℤ
neg (pos zero) = pos 0
neg (pos (suc n)) = negsuc n
neg (negsuc n) = pos (n + 1)

infixl 60 ◌+ℤ◌
unfoldable pub ◌+ℤ◌ : ℤ → ℤ → ℤ
pos m +ℤ pos n = pos (m + n)
pos m +ℤ negsuc n = if ltb n m then pos (m - (n + 1)) else negsuc (n - m)
negsuc m +ℤ pos n = if ltb m n then pos (n - (m + 1)) else negsuc (m - n)
negsuc m +ℤ negsuc n = negsuc (m + n + 1)

unfoldable pub times : ℕ → ℤ → ℤ
unfolding neg
times k (pos n) = pos (k * n)
times k (negsuc n) = neg (pos (k * (n + 1)))

-- `Math.max(0, y)`
unfoldable pub max_zero : ℤ → ℤ
max_zero (pos n) = pos n
max_zero (negsuc n) = pos 0
