-- ===== src/DateTimeShortcuts/Offset.antt =====
-- DateTimeShortcuts.js: the offset between the browser's time zone and the server's, and the warning.
use agentsecrets_server.Prelude.{
  inr, inl, Option-cases, ◌*◌, ℕ, zero, suc, ◌+◌, ◌≡◌, refl, sym, ap, none, some, List, [], ◌∷◌,
  arith,
}
use agentsecrets_server.Prelude.Int.{ℤ, pos, negsuc, ◌+ℤ◌, times, neg}
use agentsecrets_server.DateTimeShortcuts.State.{Setting, Warning, ahead, behind}

-- `DateTimeShortcuts.now`, as a time value; `t` is the clock's.
unfoldable pub now : Setting → ℤ → ℤ
now g t = elim g.server_offset [
  | none ↦ t
  | some server ↦ t +ℤ times 1000 (server +ℤ neg (times 60 (neg (g.host.timezone_offset t))))
]

-- `DateTimeShortcuts.timezoneOffset` after `init` at the time `t`, in seconds.
unfoldable pub timezone_offset : Setting → ℤ → ℤ
timezone_offset g t = elim g.server_offset [
  | none ↦ pos 0
  | some server ↦ times 60 (neg (g.host.timezone_offset t)) +ℤ neg server
]

-- The warnings of a parent after `addTimezoneWarning`; it adds none where there is one.
unfoldable pub warnings_with : ℤ → List Warning → List Warning
warnings_with offset (w ∷ warnings) = w ∷ warnings
warnings_with (pos zero) [] = []
warnings_with (pos (suc n)) [] = ahead (n + 1) ∷ []
warnings_with (negsuc n) [] = behind (n + 1) ∷ []

neg_sub : (a s : ℤ) → s +ℤ neg a ≡ neg (a +ℤ neg s)
unfolding neg ◌+ℤ◌
neg_sub (pos zero) (pos zero) = ground arith
neg_sub (pos zero) (pos (suc n)) = ground arith
neg_sub (pos zero) (negsuc n) = ground arith
neg_sub (pos (suc m)) (pos zero) = ground arith
neg_sub (pos (suc m)) (pos (suc n)) = ground arith
neg_sub (pos (suc m)) (negsuc n) = ground arith
neg_sub (negsuc m) (pos zero) = ground arith
neg_sub (negsuc m) (pos (suc n)) = ground arith
neg_sub (negsuc m) (negsuc n) = ground arith

neg-neg_pos : (n : ℕ) → neg (neg (pos n)) ≡ pos n
unfolding neg
neg-neg_pos zero = refl
neg-neg_pos (suc n) = ground arith

times-neg : (k : ℕ) (a : ℤ) → times k (neg a) ≡ neg (times k a)
unfolding times neg
times-neg k (pos zero) = ground arith
times-neg k (pos (suc n)) = ap (λ (m : ℕ). neg (pos (k * m))) (omega arith)
times-neg k (negsuc n) = sym (neg-neg_pos (k * (n + 1)))

add-neg : (t a : ℤ) → (t +ℤ neg a) +ℤ a ≡ t
unfolding neg ◌+ℤ◌
add-neg (pos m) (pos zero) = ground arith
add-neg (pos m) (pos (suc n)) = ground arith
add-neg (pos m) (negsuc n) = ground arith
add-neg (negsuc m) (pos zero) = ground arith
add-neg (negsuc m) (pos (suc n)) = ground arith
add-neg (negsuc m) (negsuc n) = ground arith

add-zero : (t : ℤ) → t +ℤ pos 0 ≡ t
unfolding ◌+ℤ◌
add-zero (pos n) = ground arith
add-zero (negsuc n) = ground arith

-- `now` is the clock's time less the offset that the warning tells, in milliseconds.
pub now-timezone_offset : (g : Setting) (t : ℤ) → now g t +ℤ times 1000 (timezone_offset g t) ≡ t
unfolding now timezone_offset times
now-timezone_offset g t = elim (Option-cases g.server_offset) [
  | inl missing ↦ rw missing (add-zero t)
  | inr (server, there) ↦
      let zone : ℤ = times 60 (neg (g.host.timezone_offset t)) in
      rw (there, neg_sub zone server, times-neg 1000 (zone +ℤ neg server))
        (add-neg t (times 1000 (zone +ℤ neg server)))
]
