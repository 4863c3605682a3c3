-- ===== src/Unfold/Inlines/Numbers.antt =====
-- The numbers in the names of the forms, under the replacements.
use mathlib.Core.Path.{subst}
use agentsecrets_server.Prelude.{
  ℕ, zero, suc, ◌+◌, ◌-◌, List, [], ◌∷◌, ◌++◌, Option, none, some, false, length, drop, All, ◌≡◌,
  ◌≢◌, refl, sym, arith,
}
use agentsecrets_server.Text.{is_digit}
use agentsecrets_server.Text.Search.{starts_with, starts_with-append}
use agentsecrets_server.Text.Decimal.{decimal, AreDigits, AreDigits-decimal, decimal-ne-nil}
use agentsecrets_server.Unfold.Inlines.{
  Content, Row, placeholder, replace_tail, replace_tails, replace_nested, replace_row, number_row,
  reindex_rows, delete_row, number_last,
}

abbrev pub EndsNumber : List ℕ → Type 0
EndsNumber [] = Unit
EndsNumber (c ∷ s) = is_digit c ≡ false

-- After the prefix stands the number, and no further digit.
abbrev pub HasNumber : ℕ → List ℕ → Type 0
HasNumber i tail = (rest : List ℕ) × (tail ≡ decimal i ++ rest) × EndsNumber rest

abbrev pub HasPlaceholder : List ℕ → Type 0
HasPlaceholder tail = (rest : List ℕ) × (tail ≡ placeholder ++ rest) × EndsNumber rest

abbrev pub OfNested : (List ℕ → Type 0) → Option Content → Type 0
OfNested P none = Unit
OfNested P (some c) = All P c.tails

-- Of every name in the form row and in the nested part.
abbrev pub OfRow : (List ℕ → Type 0) → Row → Type 0
OfRow P r = All P r.content.tails × OfNested P r.nested

drop-append : (s t : List ℕ) → drop (length s) (s ++ t) ≡ t
drop-append [] t = refl
drop-append (c ∷ s) t = drop-append s t

replace_tail-match : (old new rest : List ℕ) → replace_tail old new (old ++ rest) ≡ new ++ rest
unfolding replace_tail
replace_tail-match old new rest = rw (starts_with-append old rest, drop-append old rest) refl

replace_tail-HasNumber :
    (i j : ℕ) (tail : List ℕ)
    → HasNumber i tail
    → HasNumber j (replace_tail (decimal i) (decimal j) tail)
replace_tail-HasNumber i j tail (rest, e, ends) =
    (rest, rw e (replace_tail-match (decimal i) (decimal j) rest), ends)

replace_tail-HasPlaceholder :
    (j : ℕ) (tail : List ℕ)
    → HasPlaceholder tail
    → HasNumber j (replace_tail placeholder (decimal j) tail)
replace_tail-HasPlaceholder j tail (rest, e, ends) =
    (rest, rw e (replace_tail-match placeholder (decimal j) rest), ends)

digits_first :
    (s rest : List ℕ) → AreDigits s → [] ≢ s → starts_with placeholder (s ++ rest) ≡ false
unfolding starts_with
digits_first [] rest h ne = absurd (ne refl)
digits_first (c ∷ s) rest h ne = ground (arith, h.0)

-- A number is no placeholder.
replace_tail-numbered :
    (i : ℕ) (new tail : List ℕ) → HasNumber i tail → replace_tail placeholder new tail ≡ tail
unfolding replace_tail
replace_tail-numbered i new tail (rest, e, ends) =
    rw e (
      rw (digits_first (decimal i) rest (AreDigits-decimal i) (λ h. decimal-ne-nil i (sym h))) refl)

module _ (P Q : List ℕ → Type 0) (old new : List ℕ)
    (step : (tail : List ℕ) → P tail → Q (replace_tail old new tail)) where
  replace_tails-All : (tails : List (List ℕ)) → All P tails → All Q (replace_tails old new tails)
  unfolding replace_tails
  replace_tails-All [] h = tt
  replace_tails-All (tail ∷ tails) h = (step tail h.0, replace_tails-All tails h.1)

  replace_nested-OfNested :
      (c : Option Content) → OfNested P c → OfNested Q (replace_nested old new c)
  replace_nested-OfNested none h = tt
  replace_nested-OfNested (some c) h = replace_tails-All c.tails h

  pub replace_row-OfRow : (r : Row) → OfRow P r → OfRow Q (replace_row old new r)
  unfolding replace_row
  replace_row-OfRow r h =
      (replace_tails-All r.content.tails h.0, replace_nested-OfNested r.nested h.1)

number_row-OfRow : (i : ℕ) (r : Row) → OfRow HasPlaceholder r → OfRow (HasNumber i) (number_row i r)
unfolding number_row replace_row
number_row-OfRow i r h =
    let numbered =
      replace_tails-All HasPlaceholder (HasNumber i) placeholder (decimal i)
        (replace_tail-HasPlaceholder i) r.content.tails h.0 in
    (
      replace_tails-All (HasNumber i) (HasNumber i) placeholder (decimal i)
          (λ tail k. subst (HasNumber i) (sym (replace_tail-numbered i (decimal i) tail k)) k)
          (replace_tails placeholder (decimal i) r.content.tails) numbered,
      replace_nested-OfNested HasPlaceholder (HasNumber i) placeholder (decimal i)
          (replace_tail-HasPlaceholder i) r.nested h.1,
    )

-- From number `i` on, each row has its own number in every name.
abbrev pub InSequence : ℕ → List Row → Type 0
InSequence i [] = Unit
InSequence i (r ∷ rows) = OfRow (HasNumber i) r × InSequence (i + 1) rows

-- The same, but that the last row is a template.
abbrev pub BeforeTemplate : ℕ → List Row → Type 0
BeforeTemplate i [] = ⊥
BeforeTemplate i (r ∷ []) = OfRow HasPlaceholder r
BeforeTemplate i (r ∷ s ∷ rows) = OfRow (HasNumber i) r × BeforeTemplate (i + 1) (s ∷ rows)

pub number_last-InSequence :
    (i n : ℕ) (rows : List Row)
    → BeforeTemplate i rows
    → i + length rows ≡ n + 1
    → InSequence i (number_last n rows)
unfolding number_last
number_last-InSequence i n [] h e = absurd h
number_last-InSequence i n (r ∷ []) h e = (
  subst (λ k. OfRow (HasNumber k) (number_row n r)) (omega (arith, e)) (number_row-OfRow n r h),
  tt,
)
number_last-InSequence i n (r ∷ s ∷ rows) h e =
    (h.0, number_last-InSequence (i + 1) n (s ∷ rows) h.1 (omega (arith, e)))

pub append-BeforeTemplate :
    (i : ℕ) (rows : List Row) (t : Row)
    → InSequence i rows
    → OfRow HasPlaceholder t
    → BeforeTemplate i (rows ++ t ∷ [])
append-BeforeTemplate i [] t h k = k
append-BeforeTemplate i (r ∷ []) t h k = (h.0, k)
append-BeforeTemplate i (r ∷ s ∷ rows) t h k =
    (h.0, append-BeforeTemplate (i + 1) (s ∷ rows) t h.1 k)

reindex_rows-InSequence :
    (i : ℕ) (rows : List Row) → InSequence (i + 1) rows → InSequence i (reindex_rows (i + 1) rows)
unfolding reindex_rows
reindex_rows-InSequence i [] h = tt
reindex_rows-InSequence i (r ∷ rows) h = (
  replace_row-OfRow (HasNumber (i + 1)) (HasNumber i) (decimal (i + 1)) (decimal (i + 1 - 1))
      (λ tail k.
        subst (λ (j : ℕ). HasNumber i (replace_tail (decimal (i + 1)) (decimal j) tail))
          (omega arith) (replace_tail-HasNumber (i + 1) i tail k))
      r h.0,
  reindex_rows-InSequence (i + 1) rows h.1,
)

pub delete_row-InSequence :
    (i n : ℕ) (rows : List Row) → InSequence i rows → InSequence i (delete_row i n rows)
unfolding delete_row
delete_row-InSequence i n [] h = tt
delete_row-InSequence i zero (r ∷ rows) h = reindex_rows-InSequence i rows h.1
delete_row-InSequence i (suc n) (r ∷ rows) h = (h.0, delete_row-InSequence (i + 1) n rows h.1)
