-- ===== src/Text/Search.antt =====
-- `includes` and `split(/\s+/)`.
use agentsecrets_server.Prelude.{
  ℕ, List, [], ◌∷◌, ◌++◌, ◌≡◌, refl, ap, inl, inr, Bool, true, false, ◌&&◌, ◌||◌, if◌then◌else◌,
  ◌==◌, arith, Bool-cases, All,
}
use agentsecrets_server.Text.Classes.{is_space}

-- The strings are equal.
abbrev pub equal_text : List ℕ → List ℕ → Bool
equal_text [] [] = true
equal_text [] (d ∷ b) = false
equal_text (c ∷ a) [] = false
equal_text (c ∷ a) (d ∷ b) = let rest = equal_text a b in if c == d then rest else false

pub equal_text_eq : (a b : List ℕ) → equal_text a b ≡ true → a ≡ b
equal_text_eq [] [] h = refl
equal_text_eq [] (d ∷ b) h = cc
equal_text_eq (c ∷ a) [] h = cc
equal_text_eq (c ∷ a) (d ∷ b) h = ground (arith, equal_text_eq a b)

pub equal_text_refl : (a : List ℕ) → equal_text a a ≡ true
equal_text_refl [] = refl
equal_text_refl (c ∷ a) = ground (arith, equal_text_refl a)

unfoldable pub starts_with : List ℕ → List ℕ → Bool
starts_with [] s = true
starts_with (c ∷ needle) [] = false
starts_with (c ∷ needle) (d ∷ s) = c == d && starts_with needle s

unfoldable pub includes : List ℕ → List ℕ → Bool
unfolding starts_with
includes needle [] = starts_with needle []
includes needle (d ∷ s) = starts_with needle (d ∷ s) || includes needle s

-- The needle stands somewhere in the string.
abbrev pub IsInfix : List ℕ → List ℕ → Type 0
IsInfix needle s = (before : List ℕ) × (after : List ℕ) × (s ≡ before ++ (needle ++ after))

pub starts_with_prefix :
    (needle s : List ℕ) → starts_with needle s ≡ true → (after : List ℕ) × (s ≡ needle ++ after)
unfolding starts_with
starts_with_prefix [] s h = (s, refl)
starts_with_prefix (c ∷ needle) [] h = cc
starts_with_prefix (c ∷ needle) (d ∷ s) h =
    let (after, e) = starts_with_prefix needle s (ground arith) in (after, ground arith)

pub starts_with-append : (needle after : List ℕ) → starts_with needle (needle ++ after) ≡ true
unfolding starts_with
starts_with-append [] after = refl
starts_with-append (c ∷ needle) after = ground (arith, starts_with-append needle after)

pub includes-IsInfix : (needle s : List ℕ) → includes needle s ≡ true → IsInfix needle s
unfolding includes starts_with
includes-IsInfix [] [] h = ([], [], refl)
includes-IsInfix (c ∷ needle) [] h = cc
includes-IsInfix needle (d ∷ s) h = elim (Bool-cases (starts_with needle (d ∷ s))) [
  | inl e ↦ let (after, p) = starts_with_prefix needle (d ∷ s) e in ([], after, p)
  | inr e ↦
      let (before, after, p) = includes-IsInfix needle s (ground arith) in
      (d ∷ before, after, ap (d ∷◌) p)
]

includes-prefix : (needle after : List ℕ) → includes needle (needle ++ after) ≡ true
unfolding includes
includes-prefix [] [] = refl
includes-prefix [] (d ∷ after) = ground arith
includes-prefix (c ∷ needle) after = ground (arith, starts_with-append (c ∷ needle) after)

includes-append :
    (needle before after : List ℕ) → includes needle (before ++ (needle ++ after)) ≡ true
unfolding includes
includes-append needle [] after = includes-prefix needle after
includes-append needle (d ∷ before) after = ground (arith, includes-append needle before after)

pub IsInfix-includes : (needle s : List ℕ) → IsInfix needle s → includes needle s ≡ true
IsInfix-includes needle s (before, after, e) = rw e (includes-append needle before after)

-- Characters of a token; the list of tokens is never empty.
abbrev pub cons_first : ℕ → List (List ℕ) → List (List ℕ)
cons_first c [] = (c ∷ []) ∷ []
cons_first c (t ∷ ts) = (c ∷ t) ∷ ts

-- The first argument says that the character before is part of a run of white space.
pub split_spaces : Bool → List ℕ → List (List ℕ)
split_spaces in_run [] = [] ∷ []
split_spaces in_run (c ∷ s) =
    let rest = split_spaces (is_space c) s in
    if is_space c then (if in_run then rest else [] ∷ rest) else cons_first c rest

-- The tokens hold no white space.
abbrev pub NoSpace : List ℕ → Type 0
NoSpace = All (λ c. is_space c ≡ false)

cons_first-NoSpace :
    (c : ℕ) (ts : List (List ℕ))
    → is_space c ≡ false
    → All NoSpace ts
    → All NoSpace (cons_first c ts)
cons_first-NoSpace c [] h k = ((h, tt), tt)
cons_first-NoSpace c (t ∷ ts) h k = ((h, k.0), k.1)

place-NoSpace :
    (b r : Bool) (c : ℕ) (rest : List (List ℕ))
    → is_space c ≡ b
    → All NoSpace rest
    → All NoSpace (if b then (if r then rest else [] ∷ rest) else cons_first c rest)
place-NoSpace true true c rest e h = h
place-NoSpace true false c rest e h = (tt, h)
place-NoSpace false r c rest e h = cons_first-NoSpace c rest e h

pub split_spaces-NoSpace : (in_run : Bool) (s : List ℕ) → All NoSpace (split_spaces in_run s)
unfolding split_spaces
split_spaces-NoSpace in_run [] = (tt, tt)
split_spaces-NoSpace in_run (c ∷ s) =
    place-NoSpace (is_space c) in_run c _ refl (split_spaces-NoSpace (is_space c) s)

pub split_spaces-nil : (in_run : Bool) → split_spaces in_run [] ≡ [] ∷ []
unfolding split_spaces
split_spaces-nil in_run = refl

pub includes_nil : (s : List ℕ) → includes [] s ≡ true
includes_nil s = IsInfix-includes [] s ([], s, refl)
