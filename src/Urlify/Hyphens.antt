-- ===== src/Urlify/Hyphens.antt =====
-- `s.replace(/[-\s]+/g, '-')`, and when no two hyphens stand side by side.
use agentsecrets_server.Prelude.{
  ℕ, zero, suc, List, [], ◌∷◌, ◌≡◌, refl, Bool, true, false, not, ◌&&◌, ◌||◌, if◌then◌else◌, ◌==◌,
  All, take, arith,
}
use agentsecrets_server.Text.{dash, is_space}
use agentsecrets_server.Text.Trim.{drop_end}

abbrev pub is_separator : ℕ → Bool
is_separator c = c == dash || is_space c

-- The first argument says that the character before is part of a run of separators.
unfoldable pub collapse : Bool → List ℕ → List ℕ
collapse in_run [] = []
collapse in_run (c ∷ s) =
    let rest = collapse (is_separator c) s in
    if is_separator c then (if in_run then rest else dash ∷ rest) else c ∷ rest

-- No hyphen follows another; the first argument says that one stands before the string.
abbrev pub single_hyphens : Bool → List ℕ → Bool
single_hyphens before [] = true
single_hyphens before (c ∷ s) = not (before && c == dash) && single_hyphens (c == dash) s

collapse-single_hyphens_run :
    (s : List ℕ) (before in_run : Bool)
    → (before ≡ true → in_run ≡ true)
    → single_hyphens before (collapse in_run s) ≡ true
unfolding collapse
collapse-single_hyphens_run [] before in_run h = refl
collapse-single_hyphens_run (c ∷ s) before in_run h = ground (
  arith,
  collapse-single_hyphens_run s before true,
  collapse-single_hyphens_run s true true,
  collapse-single_hyphens_run s false false,
)

pub collapse-single_hyphens : (s : List ℕ) → single_hyphens false (collapse false s) ≡ true
collapse-single_hyphens s = collapse-single_hyphens_run s false false (λ e. e)

-- One character of `collapse`, put before what is already there.
abbrev place : Bool → Bool → ℕ → List ℕ → List ℕ
place separates in_run c rest =
    if separates then (if in_run then rest else dash ∷ rest) else c ∷ rest

All-place {κ} :
    (P : ℕ → Type κ) (b in_run : Bool) (c : ℕ) (rest : List ℕ)
    → P dash
    → (b ≡ false → P c)
    → All P rest
    → All P (place b in_run c rest)
All-place P true true c rest d h k = k
All-place P true false c rest d h k = (d, k)
All-place P false in_run c rest d h k = (h refl, k)

pub All-collapse {κ} :
    (P : ℕ → Type κ) (in_run : Bool) (s : List ℕ) → P dash → All P s → All P (collapse in_run s)
unfolding collapse
All-collapse P in_run [] d h = tt
All-collapse P in_run (c ∷ s) d h =
    All-place P (is_separator c) in_run c _ d (λ _. h.0) (All-collapse P (is_separator c) s d h.1)

-- What is left is no white space.
pub collapse-no_space :
    (in_run : Bool) (s : List ℕ) → All (λ c. is_space c ≡ false) (collapse in_run s)
unfolding collapse
collapse-no_space in_run [] = tt
collapse-no_space in_run (c ∷ s) =
    All-place (λ d. is_space d ≡ false) (is_separator c) in_run c _ refl (λ e. ground arith)
      (collapse-no_space (is_separator c) s)

-- A string without spaces and without adjacent hyphens stays.
pub collapse_id :
    (before : Bool) (s : List ℕ)
    → All (λ c. is_space c ≡ false) s
    → single_hyphens before s ≡ true
    → collapse before s ≡ s
unfolding collapse
collapse_id before [] h k = refl
collapse_id before (c ∷ s) h k =
    ground (arith, h.0, collapse_id true s h.1, collapse_id false s h.1)

pub take-single_hyphens :
    (n : ℕ) (before : Bool) (s : List ℕ)
    → single_hyphens before s ≡ true
    → single_hyphens before (take n s) ≡ true
take-single_hyphens zero before s h = refl
take-single_hyphens (suc n) before [] h = refl
take-single_hyphens (suc n) before (c ∷ s) h = ground (arith, take-single_hyphens n (c == dash) s)

pub drop_end-single_hyphens :
    (p : ℕ → Bool) (before : Bool) (s : List ℕ)
    → single_hyphens before s ≡ true
    → single_hyphens before (drop_end p s) ≡ true
unfolding drop_end
drop_end-single_hyphens p before [] h = refl
drop_end-single_hyphens p before (c ∷ s) h = ground (arith, drop_end-single_hyphens p (c == dash) s)
