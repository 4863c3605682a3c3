-- ===== src/Text/Replace.antt =====
-- `split` and `replace` with a text that is found by scanning from the left, each match after the end
-- of the one before.
use mathlib.Core.Path.{subst}
use agentsecrets_server.Prelude.{
  ℕ, zero, suc, ◌-◌, ◌≡◌, refl, sym, ap, ◌∙◌, List, [], ◌∷◌, ◌++◌, length, drop, if◌then◌else◌, All,
  ◌==◌, false, arith, Bool-cases, inl, inr,
}
use agentsecrets_server.Text.Search.{starts_with, cons_first, starts_with_prefix}

sym_test : (c sep : ℕ) → (c == sep) ≡ false → (sep == c) ≡ false
sym_test c sep h = ground arith

-- What is left of a text after `skip` code units is split; the separator is not empty.
pub split_from : List ℕ → ℕ → List ℕ → List (List ℕ)
split_from sep skip [] = [] ∷ []
split_from sep (suc skip) (c ∷ s) = split_from sep skip s
split_from sep zero (c ∷ s) =
    let after = split_from sep (length sep - 1) s in
    let next = split_from sep zero s in
    if starts_with sep (c ∷ s) then [] ∷ after else cons_first c next

unfoldable pub split_on : List ℕ → List ℕ → List (List ℕ)
unfolding split_from
split_on sep s = split_from sep 0 s

-- A separator of one code unit: the part before its first occurrence stands first.
pub split_on-unit :
    (sep : ℕ) (s t : List ℕ)
    → All (λ c. (c == sep) ≡ false) s
    → split_on (sep ∷ []) (s ++ sep ∷ t) ≡ s ∷ split_on (sep ∷ []) t
unfolding split_on split_from starts_with
split_on-unit sep [] t h = ground arith
split_on-unit sep (c ∷ s) t h = rw (sym_test c sep h.0, split_on-unit sep s t h.1) refl

-- `replace` with a global expression that is a plain text.
pub replace_from : List ℕ → List ℕ → ℕ → List ℕ → List ℕ
replace_from needle new skip [] = []
replace_from needle new (suc skip) (c ∷ s) = replace_from needle new skip s
replace_from needle new zero (c ∷ s) =
    let after = replace_from needle new (length needle - 1) s in
    let next = replace_from needle new zero s in
    if starts_with needle (c ∷ s) then new ++ after else c ∷ next

unfoldable pub replace_all : List ℕ → List ℕ → List ℕ → List ℕ
unfolding replace_from
replace_all needle new s = replace_from needle new 0 s

pub drop-append : (s t : List ℕ) → drop (length s) (s ++ t) ≡ t
drop-append [] t = refl
drop-append (c ∷ s) t = drop-append s t

-- Texts of the same length whose code units are related in pairs.
abbrev pub Pairwise : (ℕ → ℕ → Type 0) → List ℕ → List ℕ → Type 0
Pairwise R [] [] = Unit
Pairwise R [] (d ∷ t) = ⊥
Pairwise R (c ∷ s) [] = ⊥
Pairwise R (c ∷ s) (d ∷ t) = R c d × Pairwise R s t

-- A replacement of a text by one that is related to it leaves every text related to what it was.
module _ (R : ℕ → ℕ → Type 0) (same : (c : ℕ) → R c c) where
  pub Pairwise-append :
      (s t u v : List ℕ) → Pairwise R s t → Pairwise R u v → Pairwise R (s ++ u) (t ++ v)
  Pairwise-append [] [] u v h k = k
  Pairwise-append [] (d ∷ t) u v h k = absurd h
  Pairwise-append (c ∷ s) [] u v h k = absurd h
  Pairwise-append (c ∷ s) (d ∷ t) u v h k = (h.0, Pairwise-append s t u v h.1 k)

  module _ (a : ℕ) (needle new : List ℕ) (related : Pairwise R (a ∷ needle) new) where
    replace_from-Pairwise :
        (skip : ℕ) (s : List ℕ) → Pairwise R (drop skip s) (replace_from (a ∷ needle) new skip s)
    unfolding replace_from
    replace_from-Pairwise zero [] = tt
    replace_from-Pairwise (suc skip) [] = tt
    replace_from-Pairwise (suc skip) (c ∷ s) = replace_from-Pairwise skip s
    replace_from-Pairwise zero (c ∷ s) = elim (Bool-cases (starts_with (a ∷ needle) (c ∷ s))) [
      | inl e ↦
          let (rest, p) = starts_with_prefix (a ∷ needle) (c ∷ s) e in
          let tail : drop (suc (length needle) - 1) s ≡ rest =
            ap (λ (k : ℕ). drop k s) (omega arith)
            ∙ ap (λ (t : List ℕ). drop (length needle) (drop 1 t)) p
            ∙ drop-append needle rest in
          rw e (
            subst
              (λ (t : List ℕ).
                Pairwise R t (new ++ replace_from (a ∷ needle) new (suc (length needle) - 1) s))
              (sym p)
              (Pairwise-append (a ∷ needle) new rest _ related (
                subst
                  (λ (t : List ℕ).
                    Pairwise R t (replace_from (a ∷ needle) new (suc (length needle) - 1) s))
                  tail (replace_from-Pairwise (suc (length needle) - 1) s))))
      | inr e ↦ rw e (same c, replace_from-Pairwise zero s)
    ]

    pub replace_all-Pairwise : (s : List ℕ) → Pairwise R s (replace_all (a ∷ needle) new s)
    unfolding replace_all
    replace_all-Pairwise s = replace_from-Pairwise zero s
