-- ===== src/Text/Trim.antt =====
-- Dropping a run of characters at the start or at the end of a string.
use agentsecrets_server.Prelude.{
  ℕ, ◌≤◌, List, [], ◌∷◌, ◌≡◌, refl, Bool, true, false, if◌then◌else◌, All, length, arith,
  Bool-cases, inl, inr,
}

-- `s.replace(/^[class]+/, '')`
unfoldable pub drop_while : (ℕ → Bool) → List ℕ → List ℕ
drop_while p [] = []
drop_while p (c ∷ s) = elim (p c) [ true ↦ drop_while p s | false ↦ c ∷ s ]

abbrev pub cons_unless : Bool → ℕ → List ℕ → List ℕ
cons_unless b c [] = if b then [] else c ∷ []
cons_unless b c (d ∷ s) = c ∷ d ∷ s

-- `s.replace(/[class]+$/, '')`
unfoldable pub drop_end : (ℕ → Bool) → List ℕ → List ℕ
drop_end p [] = []
drop_end p (c ∷ s) = cons_unless (p c) c (drop_end p s)

-- The last character, if there is one, is not in the class.
abbrev pub EndsOutside : (ℕ → Bool) → List ℕ → Type 0
EndsOutside p [] = Unit
EndsOutside p (c ∷ []) = p c ≡ false
EndsOutside p (c ∷ d ∷ s) = EndsOutside p (d ∷ s)

EndsOutside-cons :
    (p : ℕ → Bool) (c : ℕ) (s : List ℕ) → EndsOutside p s → EndsOutside p (cons_unless (p c) c s)
EndsOutside-cons p c [] h = elim (Bool-cases (p c)) [ inl e ↦ rw e tt | inr e ↦ rw e e ]
EndsOutside-cons p c (d ∷ s) h = h

pub drop_end-EndsOutside : (p : ℕ → Bool) (s : List ℕ) → EndsOutside p (drop_end p s)
unfolding drop_end
drop_end-EndsOutside p [] = tt
drop_end-EndsOutside p (c ∷ s) = EndsOutside-cons p c (drop_end p s) (drop_end-EndsOutside p s)

pub drop_end_id : (p : ℕ → Bool) (s : List ℕ) → EndsOutside p s → drop_end p s ≡ s
unfolding drop_end
drop_end_id p [] h = refl
drop_end_id p (c ∷ []) h = rw h
drop_end_id p (c ∷ d ∷ s) h = rw (drop_end_id p (d ∷ s) h)

pub All-drop_while {κ} :
    (P : ℕ → Type κ) (p : ℕ → Bool) (s : List ℕ) → All P s → All P (drop_while p s)
unfolding drop_while
All-drop_while P p [] h = tt
All-drop_while P p (c ∷ s) h = elim (Bool-cases (p c)) [
  | inl e ↦ rw (e, drop_while) (All-drop_while P p s h.1)
  | inr e ↦ rw (e, drop_while) h
]

All-cons_unless {κ} :
    (P : ℕ → Type κ) (b : Bool) (c : ℕ) (s : List ℕ) → P c → All P s → All P (cons_unless b c s)
All-cons_unless P true c [] h k = tt
All-cons_unless P false c [] h k = (h, tt)
All-cons_unless P b c (d ∷ s) h k = (h, k)

pub All-drop_end {κ} : (P : ℕ → Type κ) (p : ℕ → Bool) (s : List ℕ) → All P s → All P (drop_end p s)
unfolding drop_end
All-drop_end P p [] h = tt
All-drop_end P p (c ∷ s) h = All-cons_unless P (p c) c (drop_end p s) h.0 (All-drop_end P p s h.1)

pub length-drop_end-le : (p : ℕ → Bool) (s : List ℕ) → length (drop_end p s) ≤ length s
unfolding drop_end
length-drop_end-le p [] = omega arith
length-drop_end-le p (c ∷ s) = ground (arith, length-drop_end-le p s)

-- Where no character is in the class nothing is dropped.
pub drop_while_id : (p : ℕ → Bool) (s : List ℕ) → All (λ c. p c ≡ false) s → drop_while p s ≡ s
unfolding drop_while
drop_while_id p [] h = refl
drop_while_id p (c ∷ s) h = rw (h.0, drop_while)

pub All-EndsOutside : (p : ℕ → Bool) (s : List ℕ) → All (λ c. p c ≡ false) s → EndsOutside p s
All-EndsOutside p [] h = tt
All-EndsOutside p (c ∷ []) h = h.0
All-EndsOutside p (c ∷ d ∷ s) h = All-EndsOutside p (d ∷ s) h.1
