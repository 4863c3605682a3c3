-- ===== src/Text/Case.antt =====
-- `String.prototype.toLowerCase`. The Unicode case tables are the host's, so the function is a
-- parameter, with what its documentation says of the letters A to Z and of other ASCII.
use agentsecrets_server.Prelude.{
  ℕ, ◌<◌, List, [], ◌∷◌, ◌≡◌, refl, false, All, if◌then◌else◌, ◌+◌, arith,
}
use agentsecrets_server.Text.Classes.{is_upper}

-- An ASCII code unit that is no capital letter.
abbrev pub IsSettled : ℕ → Type 0
IsSettled c = (c < 128) × (is_upper c ≡ false)

pub record CaseMapping : Type 0 where
  pub to_lower_case : List ℕ → List ℕ
  pub no_capitals : (s : List ℕ) → All (λ c. is_upper c ≡ false) (to_lower_case s)
  pub settled_stays : (s : List ℕ) → All IsSettled s → to_lower_case s ≡ s

-- The mapping of a host that knows the ASCII letters alone: it meets the laws.
abbrev pub lower_ascii : List ℕ → List ℕ
lower_ascii [] = []
lower_ascii (c ∷ s) = (if is_upper c then c + 32 else c) ∷ lower_ascii s

pub lower_ascii-no_capitals : (s : List ℕ) → All (λ c. is_upper c ≡ false) (lower_ascii s)
lower_ascii-no_capitals [] = tt
lower_ascii-no_capitals (c ∷ s) = (ground arith, lower_ascii-no_capitals s)

pub lower_ascii-settled : (s : List ℕ) → All IsSettled s → lower_ascii s ≡ s
lower_ascii-settled [] h = refl
lower_ascii-settled (c ∷ s) h = ground (arith, lower_ascii-settled s h.1)

abbrev pub ascii_case : CaseMapping
ascii_case = record {
  to_lower_case = lower_ascii;
  no_capitals = lower_ascii-no_capitals;
  settled_stays = lower_ascii-settled;
}
