-- ===== src/Urlify.antt =====
-- staticfiles/admin/js/urlify.js: the tables of transliterations, and the steps of `URLify`.
mod Tests
pub mod Maps
pub mod Downcode
pub mod Hyphens
pub mod Slug
use agentsecrets_server.Prelude.{
  ℕ, List, Option, none, some, Bool, false, if◌then◌else◌, ◌||◌, ◌==◌, take, keep,
}
use agentsecrets_server.Text.{dash, is_word, is_space, CaseMapping}
use agentsecrets_server.Text.Trim.{drop_while, drop_end}
use agentsecrets_server.Urlify.Hyphens.{collapse}
use agentsecrets_server.Urlify.Downcode.{downcode}

-- `s.substring(0, num_chars)`; without a limit the string is whole.
abbrev pub substring : List ℕ → Option ℕ → List ℕ
substring s none = s
substring s (some n) = take n s

-- The class `[-\w\s]`.
abbrev pub keeps_ascii : ℕ → Bool
keeps_ascii c = c == dash || is_word c || is_space c

-- The class `[-_\p{L}\p{N}\s]`, over the test that the XRegExp library makes for `\p{L}\p{N}`.
abbrev pub keeps_unicode : (ℕ → Bool) → ℕ → Bool
keeps_unicode is_letter_or_number c = c == dash || c == b'_' || is_letter_or_number c || is_space c

-- The steps after the unwanted characters are gone.
pub hyphenate : List ℕ → Option ℕ → List ℕ
hyphenate s num_chars =
    let trimmed = drop_end is_space (drop_while is_space s) in
    drop_end (λ c. c == dash) (substring (collapse false trimmed) num_chars)

module _ (host : CaseMapping) (is_letter_or_number : ℕ → Bool) where
  open host use {to_lower_case}

  pub urlify : List ℕ → Option ℕ → Bool → List ℕ
  unfolding hyphenate
  urlify s num_chars allow_unicode =
      if allow_unicode
      then hyphenate (keep (keeps_unicode is_letter_or_number) (to_lower_case s)) num_chars
      else hyphenate (keep keeps_ascii (to_lower_case (downcode s))) num_chars
