-- ===== src/Formset/Names.antt =====
-- inlines.js: the expression that finds the form number in an id, a name or a label's target, and that
-- a `Label` is what it finds.
use agentsecrets_server.Prelude.{
  ◌==◌, ℕ, ◌≡◌, ◌≢◌, refl, sym, ap, ◌∙◌, ◌≤◌, Bool, true, false, not, ◌&&◌, Option, none, some,
  List, [], ◌∷◌, ◌++◌, length, drop, if◌then◌else◌, arith, length-append,
}
use mathlib.Core.List.{append_assoc}
use agentsecrets_server.Text.{codes, is_digit}
use agentsecrets_server.Text.Decimal.{decimal, AreDigits, AreDigits-decimal, decimal-ne-nil}
use agentsecrets_server.Text.Search.{starts_with, starts_with-append}
use agentsecrets_server.Text.Replace.{drop-append}
use agentsecrets_server.Formset.{Label, update_element_index}

abbrev pub digit_next : List ℕ → Bool
digit_next [] = false
digit_next (c ∷ s) = is_digit c

-- What follows the digits.
pub skip_digits : List ℕ → List ℕ
skip_digits [] = []
skip_digits (c ∷ s) = let rest = skip_digits s in if is_digit c then rest else c ∷ s

-- What follows `\d+|__prefix__`.
pub after_number : List ℕ → Option (List ℕ)
unfolding skip_digits
after_number s =
    if digit_next s
    then some (skip_digits s)
    else if starts_with (codes "__prefix__") s
    then some (drop 10 s)
    else none

abbrev pub dashed : List ℕ → List ℕ
dashed prefix = prefix ++ b'-' ∷ []

-- What follows a match at the start; no character of a prefix is special.
pub match_here : List ℕ → List ℕ → Option (List ℕ)
unfolding after_number
match_here prefix s =
    if starts_with (dashed prefix) s then after_number (drop (length (dashed prefix)) s) else none

abbrev pub replaced : List ℕ → ℕ → ℕ → List ℕ → Option (List ℕ) → List ℕ
replaced prefix ndx c next none = c ∷ next
replaced prefix ndx c next (some rest) = dashed prefix ++ (decimal ndx ++ rest)

-- `text.replace(id_regex, replacement)`
unfoldable pub update_text : List ℕ → ℕ → List ℕ → List ℕ
unfolding match_here
update_text prefix ndx [] = []
update_text prefix ndx (c ∷ s) =
    let next = update_text prefix ndx s in replaced prefix ndx c next (match_here prefix (c ∷ s))

-- The names of an element; one that it does not have is empty.
pub record Names : Type 0 where
  pub html_for : List ℕ
  pub id : List ℕ
  pub name : List ℕ

abbrev update_given : List ℕ → ℕ → List ℕ → List ℕ
update_given prefix ndx [] = []
update_given prefix ndx (c ∷ s) = update_text prefix ndx (c ∷ s)

-- `updateElementIndex`
pub update_names : List ℕ → ℕ → Names → Names
unfolding update_text
update_names prefix ndx names = record {
  html_for = update_given prefix ndx names.html_for;
  id = update_given prefix ndx names.id;
  name = update_given prefix ndx names.name;
}

abbrev pub index_text : Option ℕ → List ℕ
index_text none = codes "__prefix__"
index_text (some n) = decimal n

-- The text of a label.
abbrev pub text_of : Label → List ℕ
text_of l = l.before ++ (index_text l.index ++ l.after)

-- No part of the text before the prefix can be taken for the start of a match.
unfoldable pub is_first : List ℕ → List ℕ → Bool
is_first needle [] = true
is_first needle (c ∷ before) =
    let rest = is_first needle before in not (starts_with needle ((c ∷ before) ++ needle)) && rest

starts_with-longer :
    (needle s t : List ℕ)
    → length needle ≤ length s
    → starts_with needle (s ++ t) ≡ starts_with needle s
unfolding starts_with
starts_with-longer [] s t h = refl
starts_with-longer (c ∷ needle) [] t h = absurd (omega arith)
starts_with-longer (c ∷ needle) (d ∷ s) t h =
    ap (λ (b : Bool). c == d && b) (starts_with-longer needle s t (omega arith))

skip_digits-digits : (s t : List ℕ) → AreDigits s → digit_next t ≡ false → skip_digits (s ++ t) ≡ t
unfolding skip_digits
skip_digits-digits [] [] h k = refl
skip_digits-digits [] (c ∷ t) h k = rw k refl
skip_digits-digits (c ∷ s) t h k = rw h.0 (skip_digits-digits s t h.1 k)

pub digit_next-digits : (s t : List ℕ) → s ≢ [] → AreDigits s → digit_next (s ++ t) ≡ true
digit_next-digits [] t ne h = absurd (ne refl)
digit_next-digits (c ∷ s) t ne h = h.0

after_number-index :
    (index : Option ℕ) (after : List ℕ)
    → digit_next after ≡ false
    → after_number (index_text index ++ after) ≡ some after
unfolding after_number
after_number-index none after h = rw (starts_with-append (codes "__prefix__") after) refl
after_number-index (some n) after h =
    rw
      (
        digit_next-digits (decimal n) after (decimal-ne-nil n) (AreDigits-decimal n),
        skip_digits-digits (decimal n) after (AreDigits-decimal n) h,
      )
      refl

match_here-index :
    (prefix : List ℕ) (index : Option ℕ) (after : List ℕ)
    → digit_next after ≡ false
    → match_here prefix (dashed prefix ++ (index_text index ++ after)) ≡ some after
unfolding match_here
match_here-index prefix index after h =
    rw
      (
        starts_with-append (dashed prefix) (index_text index ++ after),
        drop-append (dashed prefix) (index_text index ++ after),
      )
      (after_number-index index after h)

match_here-none :
    (prefix s : List ℕ) → starts_with (dashed prefix) s ≡ false → match_here prefix s ≡ none
unfolding match_here
match_here-none prefix s h = rw h refl

match_here-nil : (prefix rest : List ℕ) → match_here prefix [] ≡ some rest → ⊥
unfolding match_here starts_with
match_here-nil [] rest h = cc
match_here-nil (c ∷ prefix) rest h = cc

update_text-here :
    (prefix s rest : List ℕ) (ndx : ℕ)
    → match_here prefix s ≡ some rest
    → update_text prefix ndx s ≡ dashed prefix ++ (decimal ndx ++ rest)
unfolding update_text
update_text-here prefix [] rest ndx h = absurd (match_here-nil prefix rest h)
update_text-here prefix (c ∷ s) rest ndx h = rw h refl

-- A part before the first match stays.
update_text-before :
    (prefix before rest after : List ℕ) (ndx : ℕ)
    → is_first (dashed prefix) before ≡ true
    → match_here prefix (dashed prefix ++ rest) ≡ some after
    → update_text prefix ndx (before ++ (dashed prefix ++ rest))
      ≡ before ++ (dashed prefix ++ (decimal ndx ++ after))
unfolding update_text is_first
update_text-before prefix [] rest after ndx h k =
    update_text-here prefix (dashed prefix ++ rest) after ndx k
update_text-before prefix (c ∷ before) rest after ndx h k =
    let needle : List ℕ = dashed prefix in
    let apart : starts_with needle ((c ∷ before) ++ needle) ≡ false = ground (arith, h) in
    let miss : starts_with needle ((c ∷ before) ++ (needle ++ rest)) ≡ false =
      ap (starts_with needle) (sym (append_assoc (c ∷ before) needle rest))
      ∙ starts_with-longer needle ((c ∷ before) ++ needle) rest
          (omega (arith, length-append (c ∷ before) needle))
      ∙ apart in
    rw
      (
        match_here-none prefix (c ∷ (before ++ (needle ++ rest))) miss,
        update_text-before prefix before rest after ndx (ground (arith, h)) k,
      )
      refl

-- Of the text of a label, before whose prefix no match can start and whose number no digit follows:
-- what the script writes is the text of the label with the new number.
pub update_text-text_of :
    (prefix before : List ℕ) (ndx : ℕ) (l : Label)
    → l.before ≡ before ++ dashed prefix
    → is_first (dashed prefix) before ≡ true
    → digit_next l.after ≡ false
    → update_text prefix ndx (text_of l) ≡ text_of (update_element_index ndx l)
update_text-text_of prefix before ndx l same h k =
    let cut : (rest : List ℕ) → l.before ++ rest ≡ before ++ (dashed prefix ++ rest) =
      λ rest. ap (λ (b : List ℕ). b ++ rest) same ∙ append_assoc before (dashed prefix) rest in
    ap (update_text prefix ndx) (cut (index_text l.index ++ l.after))
    ∙ update_text-before prefix before (index_text l.index ++ l.after) l.after ndx h
        (match_here-index prefix l.index l.after k)
    ∙ sym (cut (decimal ndx ++ l.after))
