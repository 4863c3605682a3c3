-- ===== src/ApiDocs/Header.antt =====
-- api.js: `normalizeHTTPHeader`.
pub mod Capitals
use mathlib.Core.Path.{subst}
use agentsecrets_server.Prelude.{
  ℕ, ◌+◌, ◌-◌, ◌<◌, ◌≡◌, List, [], ◌∷◌, ◌++◌, Bool, not, ◌&&◌, ◌||◌, map, take, drop, if◌then◌else◌,
  ◌==◌, All,
}
use agentsecrets_server.Text.{codes, is_upper, is_lower}
use agentsecrets_server.Text.Replace.{replace_all}

-- A letter of ASCII in the other case.
abbrev pub upper_ascii : ℕ → ℕ
upper_ascii c = if is_lower c then c - 32 else c

abbrev pub fold_case : ℕ → ℕ
fold_case c = if is_upper c then c + 32 else c

-- `toUpperCase` is the host's, with what the language says of ASCII.
pub record UpperCase : Type 0 where
  pub to_upper_case : List ℕ → List ℕ
  pub ascii_upper : (s : List ℕ) → All (λ c. c < 128) s → to_upper_case s ≡ map upper_ascii s

-- What `.` does not match.
abbrev pub is_line_end : ℕ → Bool
is_line_end c = c == 10 || c == 13 || c == 0x2028 || c == 0x2029

-- The three replacements of words.
pub replacements : List ℕ → List ℕ
replacements s =
    replace_all (codes "Md5") (codes "MD5")
      (replace_all (codes "Xss") (codes "XSS") (replace_all (codes "Www") (codes "WWW") s))

module _ (host : UpperCase) where
  open host use {to_upper_case, ascii_upper}

  -- `replace(/-(.)/g, …)`
  pub upper_after_dash : List ℕ → List ℕ
  upper_after_dash [] = []
  upper_after_dash (c ∷ []) = c ∷ []
  upper_after_dash (c ∷ d ∷ s) =
      let after = upper_after_dash s in
      let next = upper_after_dash (d ∷ s) in
      if c == b'-' && not (is_line_end d) then to_upper_case (c ∷ d ∷ []) ++ after else c ∷ next

  unfoldable pub normalize_http_header : List ℕ → List ℕ
  unfolding upper_after_dash replacements
  normalize_http_header s = replace_all (codes "Md5") (codes "MD5") (
      replace_all (codes "Xss") (codes "XSS") (
        replace_all (codes "Www") (codes "WWW")
          (upper_after_dash (to_upper_case (take 1 s) ++ drop 1 s))))
