-- ===== src/Text/Decimal.antt =====
-- Numbers as JavaScript prints them, and what digits stand for.
use agentsecrets_server.Prelude.{
  ℕ, zero, suc, ◌+◌, ◌-◌, ◌*◌, ◌/◌, ◌%◌, ◌<◌, ◌≡◌, refl, ◌≢◌, inl, inr, true, List, [], ◌∷◌, ◌++◌,
  arith, ltb, if◌then◌else◌, Bool-cases, All, All-append,
}
use agentsecrets_server.Text.Classes.{is_digit}

-- The first argument bounds the number of digits.
pub decimal_fuel : ℕ → ℕ → List ℕ
decimal_fuel zero n = []
decimal_fuel (suc f) n =
    let rest = decimal_fuel f (n / 10) in
    if ltb n 10 then (b'0' + n) ∷ [] else rest ++ (b'0' + n % 10) ∷ []

-- `'' + n`
unfoldable pub decimal : ℕ → List ℕ
unfolding decimal_fuel
decimal n = decimal_fuel (suc n) n

pub value_from : ℕ → List ℕ → ℕ
value_from acc [] = acc
value_from acc (c ∷ s) = value_from (acc * 10 + (c - b'0')) s

-- The number that a string of digits stands for.
unfoldable pub value : List ℕ → ℕ
unfolding value_from
value s = value_from 0 s

abbrev pub AreDigits : List ℕ → Type 0
AreDigits = All (λ c. is_digit c ≡ true)

value_from-append :
    (acc : ℕ) (s t : List ℕ) → value_from acc (s ++ t) ≡ value_from (value_from acc s) t
unfolding value_from
value_from-append acc [] t = refl
value_from-append acc (c ∷ s) t = value_from-append (acc * 10 + (c - b'0')) s t

value_from-decimal_fuel : (f n : ℕ) → n < f → value_from 0 (decimal_fuel f n) ≡ n
unfolding decimal_fuel value_from
value_from-decimal_fuel zero n h = elim h [ ]
value_from-decimal_fuel (suc f) n h = elim (Bool-cases (ltb n 10)) [
  | inl small ↦ rw small (omega arith)
  | inr large ↦
      rw (large, value_from-append 0 (decimal_fuel f (n / 10)) ((b'0' + n % 10) ∷ []))
        (omega (arith, value_from-decimal_fuel f (n / 10) (ground arith)))
]

AreDigits-decimal_fuel : (f n : ℕ) → AreDigits (decimal_fuel f n)
unfolding decimal_fuel
AreDigits-decimal_fuel zero n = tt
AreDigits-decimal_fuel (suc f) n = elim (Bool-cases (ltb n 10)) [
  | inl small ↦ rw small (ground arith, tt)
  | inr large ↦ rw large (
      All-append (λ c. is_digit c ≡ true) (decimal_fuel f (n / 10)) _
        (AreDigits-decimal_fuel f (n / 10)) (ground arith, tt))
]

-- Reading what was printed gives the number back.
pub value-decimal : (n : ℕ) → value (decimal n) ≡ n
unfolding value decimal
value-decimal n = value_from-decimal_fuel (suc n) n (omega arith)

pub AreDigits-decimal : (n : ℕ) → AreDigits (decimal n)
unfolding decimal
AreDigits-decimal n = AreDigits-decimal_fuel (suc n) n

pub value-zero : (s : List ℕ) → value (b'0' ∷ s) ≡ value s
unfolding value
value-zero s = refl

append-ne-nil : (s : List ℕ) (c : ℕ) → (s ++ c ∷ []) ≢ []
append-ne-nil [] c e = cc
append-ne-nil (d ∷ s) c e = cc

pub decimal-ne-nil : (n : ℕ) → decimal n ≢ []
unfolding decimal
decimal-ne-nil n e = elim (Bool-cases (ltb n 10)) [
  | inl small ↦ cc (rw small at e)
  | inr large ↦ append-ne-nil _ _ (rw large at e)
]
