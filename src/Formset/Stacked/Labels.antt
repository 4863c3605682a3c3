-- ===== src/Formset/Stacked/Labels.antt =====
-- The numbers in the labels of stacked inlines.
use agentsecrets_server.Prelude.{
  ℕ, zero, suc, ◌+◌, ◌≡◌, refl, ap, ◌∙◌, Bool, true, false, ◌&&◌, List, [], ◌∷◌, ◌++◌, ◌==◌, arith,
  Bool-cases, inl, inr, All, some, length, get_elem?, ◌≢◌,
}
use mathlib.Core.Option.{some-injective}
use agentsecrets_server.Text.{is_digit}
use agentsecrets_server.Text.Decimal.{decimal, AreDigits, AreDigits-decimal, decimal-ne-nil}
use agentsecrets_server.Formset.Names.{digit_next, digit_next-digits}
use agentsecrets_server.Formset.Stacked.{
  relabel, update_labels, Event, added, removed, insert_label, remove_label, change, changes,
  run_labels,
}

relabel-digits :
    (count : ℕ) (s t : List ℕ) → AreDigits s → relabel count true (s ++ t) ≡ relabel count true t
unfolding relabel
relabel-digits count [] t h = refl
relabel-digits count (c ∷ s) t h = rw h.0 (relabel-digits count s t h.1)

-- Digits go on only where there is one.
relabel-going :
    (count : ℕ) (s : List ℕ) → digit_next s ≡ false → relabel count true s ≡ relabel count false s
unfolding relabel
relabel-going count [] h = refl
relabel-going count (c ∷ s) h = rw h refl

digit_next-relabel-going : (count : ℕ) (s : List ℕ) → digit_next (relabel count true s) ≡ false
unfolding relabel
digit_next-relabel-going count [] = refl
digit_next-relabel-going count (c ∷ s) = elim (Bool-cases (is_digit c)) [
  | inl e ↦ rw e (digit_next-relabel-going count s)
  | inr e ↦ elim (Bool-cases (c == b'#' && digit_next s)) [
    | inl f ↦ rw (e, f) refl
    | inr f ↦ rw (e, f) e
  ]
]

digit_next-relabel : (count : ℕ) (s : List ℕ) → digit_next (relabel count false s) ≡ digit_next s
unfolding relabel
digit_next-relabel count [] = refl
digit_next-relabel count (c ∷ s) = elim (Bool-cases (c == b'#' && digit_next s)) [
  | inl f ↦ rw f (hash_no_digit c (digit_next s) f)
  | inr f ↦ rw f refl
]
  where
    hash_no_digit : (c : ℕ) (b : Bool) → (c == b'#' && b) ≡ true → false ≡ is_digit c
    hash_no_digit c b h = ground (arith, h)

relabel-hash :
    (count : ℕ) (t : List ℕ)
    → digit_next t ≡ true
    → relabel count false (b'#' ∷ t) ≡ b'#' ∷ (decimal count ++ relabel count true t)
unfolding relabel
relabel-hash count t h = rw h refl

relabel-other :
    (count c : ℕ) (t : List ℕ)
    → (c == b'#' && digit_next t) ≡ false
    → relabel count false (c ∷ t) ≡ c ∷ relabel count false t
unfolding relabel
relabel-other count c t h = rw h refl

-- Of two numberings the second wins.
relabel_twice :
    (m n : ℕ) (going : Bool) (s : List ℕ) → relabel m false (relabel n going s) ≡ relabel m going s
unfolding relabel
relabel_twice m n going [] = refl
relabel_twice m n going (c ∷ s) = elim (Bool-cases (going && is_digit c)) [
  | inl e ↦ rw e (relabel_twice m n true s)
  | inr e ↦ elim (Bool-cases (c == b'#' && digit_next s)) [
    | inl f ↦
        rw (e, f)
          (relabel-hash m (decimal n ++ relabel n true s)
              (digit_next-digits (decimal n) _ (decimal-ne-nil n) (AreDigits-decimal n))
            ∙ ap (λ (t : List ℕ). b'#' ∷ (decimal m ++ t))
                (relabel-digits m (decimal n) (relabel n true s) (AreDigits-decimal n)
                  ∙ relabel-going m (relabel n true s) (digit_next-relabel-going n s)
                  ∙ relabel_twice m n true s))
    | inr f ↦
        rw (e, f)
          (relabel-other m c (relabel n false s)
              (ap (λ (b : Bool). c == b'#' && b) (digit_next-relabel n s) ∙ f)
            ∙ ap (c ∷◌) (relabel_twice m n false s))
  ]
]

update_labels_twice :
    (i j : ℕ) (labels : List (List ℕ))
    → update_labels i (update_labels j labels) ≡ update_labels i labels
unfolding update_labels
update_labels_twice i j [] = refl
update_labels_twice i j (html ∷ labels) =
    ap (λ (s : List ℕ). s ∷ update_labels (i + 1) (update_labels (j + 1) labels))
      (relabel_twice (i + 1) (j + 1) false html)
    ∙ ap (relabel (i + 1) false html ∷◌) (update_labels_twice (i + 1) (j + 1) labels)

update_labels-insert :
    (i j n : ℕ) (html : List ℕ) (labels : List (List ℕ))
    → update_labels i (insert_label n html (update_labels j labels))
      ≡ update_labels i (insert_label n html labels)
unfolding update_labels insert_label
update_labels-insert i j zero html labels =
    ap (relabel (i + 1) false html ∷◌) (update_labels_twice (i + 1) j labels)
update_labels-insert i j (suc n) html [] = refl
update_labels-insert i j (suc n) html (l ∷ labels) =
    ap
      (λ (s : List ℕ).
        s ∷ update_labels (i + 1) (insert_label n html (update_labels (j + 1) labels)))
      (relabel_twice (i + 1) (j + 1) false l)
    ∙ ap (relabel (i + 1) false l ∷◌) (update_labels-insert (i + 1) (j + 1) n html labels)

update_labels-remove :
    (i j n : ℕ) (labels : List (List ℕ))
    → update_labels i (remove_label n (update_labels j labels))
      ≡ update_labels i (remove_label n labels)
unfolding update_labels remove_label
update_labels-remove i j n [] = refl
update_labels-remove i j zero (l ∷ labels) = update_labels_twice i (j + 1) labels
update_labels-remove i j (suc n) (l ∷ labels) =
    ap (λ (s : List ℕ). s ∷ update_labels (i + 1) (remove_label n (update_labels (j + 1) labels)))
      (relabel_twice (i + 1) (j + 1) false l)
    ∙ ap (relabel (i + 1) false l ∷◌) (update_labels-remove (i + 1) (j + 1) n labels)

update_labels-change :
    (e : Event) (labels : List (List ℕ))
    → update_labels 0 (change e (update_labels 0 labels)) ≡ update_labels 0 (change e labels)
unfolding change
update_labels-change (added n html) labels = update_labels-insert 0 0 n html labels
update_labels-change (removed n) labels = update_labels-remove 0 0 n labels

run-changes :
    (events : List Event) (labels : List (List ℕ))
    → run_labels (update_labels 0 labels) events ≡ update_labels 0 (changes events labels)
unfolding run_labels changes
run-changes [] labels = refl
run-changes (e ∷ events) labels =
    ap (λ (l : List (List ℕ)). run_labels l events) (update_labels-change e labels)
    ∙ run-changes events (change e labels)

run_labels-changes :
    (e : Event) (events : List Event) (labels : List (List ℕ))
    → run_labels labels (e ∷ events) ≡ update_labels 0 (changes (e ∷ events) labels)
unfolding run_labels changes
run_labels-changes e events labels = run-changes events (change e labels)

abbrev IsPlain : List ℕ → Type 0
IsPlain s = All (λ (c : ℕ). (c == b'#') ≡ false) s

relabel-plain : (count : ℕ) (s : List ℕ) → IsPlain s → relabel count false s ≡ s
unfolding relabel
relabel-plain count [] h = refl
relabel-plain count (c ∷ s) h = rw (h.0, relabel-plain count s h.1) refl

relabel-number :
    (count : ℕ) (before digits after : List ℕ)
    → IsPlain before
    → AreDigits digits
    → digits ≢ []
    → digit_next after ≡ false
    → IsPlain after
    → relabel count false (before ++ b'#' ∷ (digits ++ after))
      ≡ before ++ b'#' ∷ (decimal count ++ after)
relabel-number count [] digits after b d ne ends a =
    relabel-hash count (digits ++ after) (digit_next-digits digits after ne d)
    ∙ ap (λ (t : List ℕ). b'#' ∷ (decimal count ++ t))
        (relabel-digits count digits after d
          ∙ relabel-going count after ends
          ∙ relabel-plain count after a)
relabel-number count (c ∷ before) digits after b d ne ends a =
    relabel-other count c _ (rw b.0 refl)
    ∙ ap (c ∷◌) (relabel-number count before digits after b.1 d ne ends a)

get_elem?-update_labels :
    (j i : ℕ) (labels : List (List ℕ)) {html : List ℕ}
    → get_elem? labels i ≡ some html
    → get_elem? (update_labels j labels) i ≡ some (relabel (j + i + 1) false html)
unfolding update_labels
get_elem?-update_labels j i [] h = cc
get_elem?-update_labels j zero (l ∷ labels) {html} h =
    let count : j + 1 ≡ j + 0 + 1 = omega arith in
    ap (λ (s : List ℕ). some (relabel (j + 1) false s)) (some-injective _ _ h)
    ∙ ap (λ (n : ℕ). some (relabel n false html)) count
get_elem?-update_labels j (suc i) (l ∷ labels) {html} h =
    let count : j + 1 + i + 1 ≡ j + suc i + 1 = omega arith in
    get_elem?-update_labels (j + 1) i labels h ∙ ap (λ (n : ℕ). some (relabel n false html)) count

length-update_labels :
    (j : ℕ) (labels : List (List ℕ)) → length (update_labels j labels) ≡ length labels
unfolding update_labels
length-update_labels j [] = refl
length-update_labels j (l ∷ labels) = ap suc (length-update_labels (j + 1) labels)

-- However forms are added and removed, once one was: there are as many labels as are left, and a
-- label that came as one number after its only `#` shows in place of that number its place, from 1 on.
pub run_labels-number :
    (e : Event) (events : List Event) (labels : List (List ℕ))
    → (i : ℕ) (before digits after : List ℕ)
    → get_elem? (changes (e ∷ events) labels) i ≡ some (before ++ b'#' ∷ (digits ++ after))
    → IsPlain before
    → AreDigits digits
    → digits ≢ []
    → digit_next after ≡ false
    → IsPlain after
    → (length (run_labels labels (e ∷ events)) ≡ length (changes (e ∷ events) labels))
      × (get_elem? (run_labels labels (e ∷ events)) i
          ≡ some (before ++ b'#' ∷ (decimal (i + 1) ++ after)))
run_labels-number e events labels i before digits after h b d ne ends a =
    let left = changes (e ∷ events) labels in
    let numbered = run_labels-changes e events labels in
    (
      ap length numbered ∙ length-update_labels 0 left,
      ap (λ (l : List (List ℕ)). get_elem? l i) numbered
          ∙ get_elem?-update_labels 0 i left h
          ∙ ap (λ (n : ℕ). some (relabel n false (before ++ b'#' ∷ (digits ++ after))))
              (omega arith)
          ∙ ap some (relabel-number (i + 1) before digits after b d ne ends a),
    )
