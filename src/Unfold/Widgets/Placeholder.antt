-- ===== src/Unfold/Widgets/Placeholder.antt =====
-- The name that is shown for a chosen file.
use agentsecrets_server.Prelude.{
  ℕ, ◌≡◌, ◌≢◌, refl, sym, ap, ◌∙◌, false, List, [], ◌∷◌, ◌++◌, ◌==◌, arith, All, Bool-cases, inl,
  inr,
}
use agentsecrets_server.Text.Search.{starts_with, cons_first}
use agentsecrets_server.Text.Replace.{split_on}
use agentsecrets_server.Unfold.Widgets.{last_part, file_placeholder}

abbrev backslash : ℕ
backslash = 92

abbrev parts : List ℕ → List (List ℕ)
parts s = split_on (backslash ∷ []) s

parts-here : (s : List ℕ) → parts (backslash ∷ s) ≡ [] ∷ parts s
unfolding split_on starts_with
parts-here s = refl

parts-other :
    (c : ℕ) (s : List ℕ) → (c == backslash) ≡ false → parts (c ∷ s) ≡ cons_first c (parts s)
unfolding split_on starts_with
parts-other c s h = rw (reversed c h) refl
  where
    reversed : (c : ℕ) → (c == backslash) ≡ false → (backslash == c) ≡ false
    reversed c h = ground arith

-- More than one part.
abbrev AreSeveral : List (List ℕ) → Type 0
AreSeveral [] = ⊥
AreSeveral (p ∷ []) = ⊥
AreSeveral (p ∷ q ∷ ps) = Unit

last_part-cons : (p : List ℕ) (ps : List (List ℕ)) → ps ≢ [] → last_part (p ∷ ps) ≡ last_part ps
unfolding last_part
last_part-cons p [] h = absurd (h refl)
last_part-cons p (q ∷ ps) h = refl

last_part-cons_first :
    (c : ℕ) (ps : List (List ℕ)) → AreSeveral ps → last_part (cons_first c ps) ≡ last_part ps
unfolding last_part
last_part-cons_first c [] h = absurd h
last_part-cons_first c (p ∷ []) h = absurd h
last_part-cons_first c (p ∷ q ∷ ps) h = refl

last_part-one : (p : List ℕ) → last_part (p ∷ []) ≡ p
unfolding last_part
last_part-one p = refl

AreSeveral-cons_first : (c : ℕ) (ps : List (List ℕ)) → AreSeveral ps → AreSeveral (cons_first c ps)
AreSeveral-cons_first c [] h = absurd h
AreSeveral-cons_first c (p ∷ []) h = absurd h
AreSeveral-cons_first c (p ∷ q ∷ ps) h = tt

parts-nil : parts [] ≡ [] ∷ []
unfolding split_on
parts-nil = refl

cons_first-nonempty : (c : ℕ) (ps : List (List ℕ)) → cons_first c ps ≢ []
cons_first-nonempty c [] h = cc
cons_first-nonempty c (p ∷ ps) h = cc

parts-nonempty : (s : List ℕ) → parts s ≢ []
parts-nonempty [] h = cc (sym parts-nil ∙ h)
parts-nonempty (c ∷ s) h = elim (Bool-cases (c == backslash)) [
  | inl e ↦
      let q : c ≡ backslash = ground arith in
      cc (sym (parts-here s) ∙ ap (λ (d : ℕ). parts (d ∷ s)) (sym q) ∙ h)
  | inr e ↦ cons_first-nonempty c (parts s) (sym (parts-other c s e) ∙ h)
]

AreSeveral-cons : (p : List ℕ) (ps : List (List ℕ)) → ps ≢ [] → AreSeveral (p ∷ ps)
AreSeveral-cons p [] h = absurd (h refl)
AreSeveral-cons p (q ∷ ps) h = tt

-- After a backslash there is another part, which is the last one or after which the last one comes.
parts-append :
    (before name : List ℕ)
    → AreSeveral (parts (before ++ backslash ∷ name))
      × (last_part (parts (before ++ backslash ∷ name)) ≡ last_part (parts name))
parts-append [] name = rw (parts-here name) (
  AreSeveral-cons [] (parts name) (parts-nonempty name),
  last_part-cons [] (parts name) (parts-nonempty name),
)
parts-append (c ∷ before) name =
    let (several, last) = parts-append before name in
    let rest : List (List ℕ) = parts (before ++ backslash ∷ name) in
    elim (Bool-cases (c == backslash)) [
      | inl e ↦
          let q : c ≡ backslash = ground arith in
          rw
            (ap (λ (d : ℕ). parts (d ∷ (before ++ backslash ∷ name))) q
              ∙ parts-here (before ++ backslash ∷ name))
            (
              AreSeveral-cons [] rest (parts-nonempty (before ++ backslash ∷ name)),
              last_part-cons [] rest (parts-nonempty (before ++ backslash ∷ name)) ∙ last,
            )
      | inr e ↦
          rw (parts-other c (before ++ backslash ∷ name) e)
            (AreSeveral-cons_first c rest several, last_part-cons_first c rest several ∙ last)
    ]

parts-plain : (name : List ℕ) → All (λ c. (c == backslash) ≡ false) name → parts name ≡ name ∷ []
parts-plain [] h = parts-nil
parts-plain (c ∷ name) h = parts-other c name h.0 ∙ ap (cons_first c) (parts-plain name h.1)

-- Of a path with a backslash, the part after the last one is shown.
file_placeholder-append :
    (before name : List ℕ)
    → All (λ c. (c == backslash) ≡ false) name
    → file_placeholder (before ++ backslash ∷ name) ≡ name
unfolding file_placeholder
file_placeholder-append before name h =
    (parts-append before name).1 ∙ ap last_part (parts-plain name h) ∙ last_part-one name
