-- ===== src/ApiDocs/Header/Capitals.antt =====
-- A header keeps its name, and its words begin with capitals.
use mathlib.Core.Path.{subst}
use agentsecrets_server.Prelude.{
  ℕ, ◌<◌, ◌≡◌, refl, sym, ◌∙◌, List, [], ◌∷◌, ◌++◌, Bool, true, false, not, ◌&&◌, map, ◌==◌, arith,
  Bool-cases, All, All-map, inl, inr,
}
use agentsecrets_server.Text.{codes, is_lower}
use agentsecrets_server.Text.Replace.{replace_all, Pairwise, Pairwise-append, replace_all-Pairwise}
use agentsecrets_server.ApiDocs.Header.{
  upper_ascii, fold_case, UpperCase, is_line_end, replacements, upper_after_dash,
  normalize_http_header,
}

-- A hyphen starts a word; a code unit in it is a visible character of ASCII.
abbrev pub IsNameUnit : ℕ → Type 0
IsNameUnit c = (32 < c) × (c < 128)

-- No hyphen follows another.
abbrev pub IsSingleDashed : List ℕ → Type 0
IsSingleDashed [] = Unit
IsSingleDashed (c ∷ []) = Unit
IsSingleDashed (c ∷ d ∷ s) = (c ≡ b'-' → (d == b'-') ≡ false) × IsSingleDashed (d ∷ s)

-- No word begins with a small letter; the first argument says that a word begins.
abbrev pub IsCapitalized : Bool → List ℕ → Type 0
IsCapitalized start [] = Unit
IsCapitalized start (c ∷ s) = (start ≡ true → is_lower c ≡ false) × IsCapitalized (c == b'-') s

-- The same letter up to its case, and unchanged or become a capital.
abbrev pub Raises : ℕ → ℕ → Type 0
Raises c d =
    (fold_case d ≡ fold_case c)
    × ((d == b'-') ≡ (c == b'-'))
    × (is_lower c ≡ false → is_lower d ≡ false)

Raises-self : (c : ℕ) → Raises c c
Raises-self c = (refl, refl, λ h. h)

Raises-trans : (c d e : ℕ) → Raises c d → Raises d e → Raises c e
Raises-trans c d e h k = (k.0 ∙ h.0, k.1 ∙ h.1, λ l. k.2 (h.2 l))

Pairwise-trans : (s t u : List ℕ) → Pairwise Raises s t → Pairwise Raises t u → Pairwise Raises s u
Pairwise-trans [] [] [] h k = tt
Pairwise-trans [] [] (e ∷ u) h k = absurd k
Pairwise-trans [] (d ∷ t) u h k = absurd h
Pairwise-trans (c ∷ s) [] u h k = absurd h
Pairwise-trans (c ∷ s) (d ∷ t) [] h k = absurd k
Pairwise-trans (c ∷ s) (d ∷ t) (e ∷ u) h k =
    (Raises-trans c d e h.0 k.0, Pairwise-trans s t u h.1 k.1)

Raises-upper : (c : ℕ) → Raises c (upper_ascii c)
Raises-upper c = (ground arith, ground arith, λ h. ground arith)

Raises-IsCapitalized :
    (start : Bool) (s t : List ℕ)
    → Pairwise Raises s t
    → IsCapitalized start s
    → IsCapitalized start t
Raises-IsCapitalized start [] [] h k = tt
Raises-IsCapitalized start [] (d ∷ t) h k = absurd h
Raises-IsCapitalized start (c ∷ s) [] h k = absurd h
Raises-IsCapitalized start (c ∷ s) (d ∷ t) h k =
    (λ e. h.0.2 (k.0 e), rw h.0.1 (Raises-IsCapitalized (c == b'-') s t h.1 k.1))

Pairwise-same : (s : List ℕ) → Pairwise Raises s s
Pairwise-same [] = tt
Pairwise-same (c ∷ s) = (Raises-self c, Pairwise-same s)

name_unit : (d : ℕ) → IsNameUnit d → is_line_end d ≡ false
name_unit d h = ground arith

single_tail : (d : ℕ) (s : List ℕ) → IsSingleDashed (d ∷ s) → IsSingleDashed s
single_tail d [] h = tt
single_tail d (c ∷ s) h = h.1

upper_not_small : (d : ℕ) → is_lower (upper_ascii d) ≡ false
upper_not_small d = ground arith

capital_after :
    (c d : ℕ) (t : List ℕ)
    → (d == b'-') ≡ false
    → IsCapitalized false t
    → IsCapitalized false (c ∷ upper_ascii d ∷ t)
capital_after c d t h k = (
  λ e. cc,
  (λ e. upper_not_small d, subst (λ b. IsCapitalized b t) (sym ((Raises-upper d).1 ∙ h)) k),
)

head_capital :
    (c : ℕ) (s t : List ℕ)
    → Pairwise Raises (c ∷ s) t
    → is_lower c ≡ false
    → IsCapitalized false t
    → IsCapitalized true t
head_capital c s [] h l k = tt
head_capital c s (d ∷ t) h l k = ((λ e. h.0.2 l), k.1)

upper_unit : (c : ℕ) → IsNameUnit c → IsNameUnit (upper_ascii c)
upper_unit c h = ground arith

upper_single : (c : ℕ) (s : List ℕ) → IsSingleDashed (c ∷ s) → IsSingleDashed (upper_ascii c ∷ s)
upper_single c [] k = tt
upper_single c (d ∷ s) k = ((λ e. k.0 (ground arith)), k.1)

Raises-replace :
    (a : ℕ) (needle new : List ℕ)
    → Pairwise Raises (a ∷ needle) new
    → (s : List ℕ) → Pairwise Raises s (replace_all (a ∷ needle) new s)
Raises-replace a needle new h s = replace_all-Pairwise Raises Raises-self a needle new h s

replacements_lem :
    (s t : List ℕ)
    → Pairwise Raises s t
    → IsCapitalized true t
    → Pairwise Raises s (replacements t) × IsCapitalized true (replacements t)
unfolding replacements
replacements_lem s t h k =
    let www : List ℕ = replace_all (codes "Www") (codes "WWW") t in
    let xss : List ℕ = replace_all (codes "Xss") (codes "XSS") www in
    let all =
      Pairwise-trans t www (replacements t)
        (Raises-replace b'W' (codes "ww") (codes "WWW")
          ((refl, refl, λ e. refl), ((refl, refl, λ e. refl), ((refl, refl, λ e. refl), tt))) t)
        (Pairwise-trans www xss (replacements t)
          (Raises-replace b'X' (codes "ss") (codes "XSS")
            ((refl, refl, λ e. refl), ((refl, refl, λ e. refl), ((refl, refl, λ e. refl), tt))) www)
          (Raises-replace b'M' (codes "d5") (codes "MD5")
            ((refl, refl, λ e. refl), ((refl, refl, λ e. refl), ((refl, refl, λ e. refl), tt)))
            xss)) in
    (Pairwise-trans s t (replacements t) h all, Raises-IsCapitalized true t (replacements t) all k)

module _ (host : UpperCase) where
  open host use {to_upper_case, ascii_upper}

  Raises-upper_case : (s : List ℕ) → All IsNameUnit s → Pairwise Raises s (to_upper_case s)
  Raises-upper_case s h = rw (ascii_upper s (All-map (λ c w. w.1) s h)) (go s)
    where
      go : (s : List ℕ) → Pairwise Raises s (map upper_ascii s)
      go [] = tt
      go (c ∷ s) = (Raises-upper c, go s)

  Raises-upper_after_dash :
      (s : List ℕ) → All IsNameUnit s → Pairwise Raises s (upper_after_dash host s)
  unfolding upper_after_dash
  Raises-upper_after_dash [] h = tt
  Raises-upper_after_dash (c ∷ []) h = (Raises-self c, tt)
  Raises-upper_after_dash (c ∷ d ∷ s) h = elim (Bool-cases (c == b'-' && not (is_line_end d))) [
    | inl e ↦ rw e (
        Pairwise-append Raises Raises-self (c ∷ d ∷ []) (to_upper_case (c ∷ d ∷ [])) s
          (upper_after_dash host s) (Raises-upper_case (c ∷ d ∷ []) (h.0, (h.1.0, tt)))
          (Raises-upper_after_dash s h.1.1))
    | inr e ↦ rw e (Raises-self c, Raises-upper_after_dash (d ∷ s) h.1)
  ]

  upper_after_dash-dash :
      (c d : ℕ) (s : List ℕ)
      → (c == b'-') ≡ true
      → IsNameUnit d
      → upper_after_dash host (c ∷ d ∷ s) ≡ to_upper_case (c ∷ d ∷ []) ++ upper_after_dash host s
  unfolding upper_after_dash
  upper_after_dash-dash c d s e h = rw (e, name_unit d h) refl

  upper_after_dash-other :
      (c d : ℕ) (s : List ℕ)
      → (c == b'-') ≡ false
      → upper_after_dash host (c ∷ d ∷ s) ≡ c ∷ upper_after_dash host (d ∷ s)
  unfolding upper_after_dash
  upper_after_dash-other c d s e = rw e refl

  upper_after_dash-IsCapitalized :
      (s : List ℕ)
      → All IsNameUnit s
      → IsSingleDashed s
      → IsCapitalized false (upper_after_dash host s)
  unfolding upper_after_dash
  upper_after_dash-IsCapitalized [] h k = tt
  upper_after_dash-IsCapitalized (c ∷ []) h k = (λ e. cc, tt)
  upper_after_dash-IsCapitalized (c ∷ d ∷ s) h k = elim (Bool-cases (c == b'-')) [
    | inl e ↦
        rw (upper_after_dash-dash c d s e h.1.0, ascii_upper (c ∷ d ∷ []) (h.0.1, (h.1.0.1, tt)))
          (capital_after (upper_ascii c) d (upper_after_dash host s) (k.0 (ground arith))
            (upper_after_dash-IsCapitalized s h.1.1 (single_tail d s k.1)))
    | inr e ↦
        rw (upper_after_dash-other c d s e)
          (λ f. cc, rw e (upper_after_dash-IsCapitalized (d ∷ s) h.1 k.1))
  ]

  -- The displayed name of a header of visible ASCII in which no hyphen follows another is the same name
  -- up to the case of its letters, of the same length, and each of its words begins with no small
  -- letter.
  pub normalize_http_header_lem :
      (s : List ℕ)
      → All IsNameUnit s
      → IsSingleDashed s
      → Pairwise Raises s (normalize_http_header host s)
        × IsCapitalized true (normalize_http_header host s)
  unfolding normalize_http_header
  normalize_http_header_lem [] h k =
      rw (ascii_upper [] tt, upper_after_dash) (replacements_lem [] [] tt tt)
  normalize_http_header_lem (c ∷ s) h k =
      let first : ℕ = upper_ascii c in
      let units : All IsNameUnit (first ∷ s) = (upper_unit c h.0, h.1) in
      let raised = Raises-upper_after_dash (first ∷ s) units in
      rw (ascii_upper (c ∷ []) (h.0.1, tt)) (
        replacements_lem (c ∷ s) (upper_after_dash host (first ∷ s))
          (Pairwise-trans (c ∷ s) (first ∷ s) _ (Raises-upper c, Pairwise-same s) raised)
          (head_capital first s _ raised (upper_not_small c)
            (upper_after_dash-IsCapitalized (first ∷ s) units (upper_single c s k))))
