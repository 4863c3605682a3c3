-- ===== src/Urlify/Slug.antt =====
-- What `URLify` returns, in either mode, and that a slug is its own slug.
use agentsecrets_server.Prelude.{
  All-keep_of, All-zip, ℕ, ◌≤◌, ◌<◌, List, ◌≡◌, refl, Option, none, some, Bool, true, false, ◌||◌,
  ◌==◌, All, All-take, All-keep, All-map, keep-All, keep, length, length-take, take, take_all,
  arith,
}
use agentsecrets_server.Text.{dash, is_space, is_upper, is_lower, is_digit, CaseMapping, IsSettled}
use agentsecrets_server.Text.Trim.{
  drop_while, drop_end, EndsOutside, drop_end-EndsOutside, drop_end_id, All-drop_while,
  All-drop_end, length-drop_end-le, drop_while_id, All-EndsOutside,
}
use agentsecrets_server.Urlify.{substring, keeps_ascii, hyphenate, urlify}
use agentsecrets_server.Urlify.Hyphens.{
  collapse, single_hyphens, collapse-single_hyphens, All-collapse, collapse-no_space, collapse_id,
  take-single_hyphens, drop_end-single_hyphens,
}
use agentsecrets_server.Urlify.Downcode.{downcode}
use agentsecrets_server.Urlify.Downcode.Laws.{downcode_ascii}

-- Within the limit, if there is one.
abbrev pub IsWithin : List ℕ → Option ℕ → Type 0
IsWithin s none = Unit
IsWithin s (some n) = length s ≤ n

abbrev is_dash : ℕ → Bool
is_dash c = c == dash

-- Hyphenated words: no spaces, no hyphen beside another or at the end.
pub record IsHyphenated (s : List ℕ) : Type 0 where
  pub no_space : All (λ c. is_space c ≡ false) s
  pub single : single_hyphens false s ≡ true
  pub ends : EndsOutside (λ c. c == dash) s

All-substring {κ} : (P : ℕ → Type κ) (s : List ℕ) (n : Option ℕ) → All P s → All P (substring s n)
All-substring P s none h = h
All-substring P s (some n) h = All-take P n s h

substring-single_hyphens :
    (s : List ℕ) (n : Option ℕ)
    → single_hyphens false s ≡ true
    → single_hyphens false (substring s n) ≡ true
substring-single_hyphens s none h = h
substring-single_hyphens s (some n) h = take-single_hyphens n false s h

hyphenate-IsWithin : (s : List ℕ) (n : Option ℕ) → IsWithin (hyphenate s n) n
unfolding hyphenate
hyphenate-IsWithin s none = tt
hyphenate-IsWithin s (some n) =
    let words = collapse false (drop_end is_space (drop_while is_space s)) in
    omega (arith, length-drop_end-le is_dash (take n words), length-take n words)

hyphenate-IsHyphenated : (s : List ℕ) (n : Option ℕ) → IsHyphenated (hyphenate s n)
unfolding hyphenate
hyphenate-IsHyphenated s n =
    let trimmed = drop_end is_space (drop_while is_space s) in
    let words = collapse false trimmed in
    let cut = substring words n in
    record {
      no_space =
          All-drop_end _ is_dash cut (All-substring _ words n (collapse-no_space false trimmed));
      single =
          drop_end-single_hyphens is_dash false cut
            (substring-single_hyphens words n (collapse-single_hyphens trimmed));
      ends = drop_end-EndsOutside is_dash cut;
    }

All-hyphenate {κ} :
    (P : ℕ → Type κ) (s : List ℕ) (n : Option ℕ) → P dash → All P s → All P (hyphenate s n)
unfolding hyphenate
All-hyphenate P s n d h =
    let trimmed = drop_end is_space (drop_while is_space s) in
    All-drop_end P is_dash (substring (collapse false trimmed) n) (
      All-substring P (collapse false trimmed) n (
        All-collapse P false trimmed d
          (All-drop_end P is_space (drop_while is_space s) (All-drop_while P is_space s h))))

substring_id : (s : List ℕ) (n : Option ℕ) → IsWithin s n → substring s n ≡ s
substring_id s none h = refl
substring_id s (some n) h = take_all n s h

hyphenate_id : (s : List ℕ) (n : Option ℕ) → IsHyphenated s → IsWithin s n → hyphenate s n ≡ s
unfolding hyphenate
hyphenate_id s n h w =
    rw
      (
        drop_while_id is_space s h.no_space,
        drop_end_id is_space s (All-EndsOutside is_space s h.no_space),
        collapse_id false s h.no_space h.single,
        substring_id s n w,
      )
      (drop_end_id is_dash s h.ends)

-- The characters of an ASCII slug.
abbrev pub IsSlugCharacter : ℕ → Type 0
IsSlugCharacter c = (is_lower c || is_digit c || c == b'_' || c == dash) ≡ true

-- The lower-case letters, digits, underscores and hyphens of an ASCII slug, spaces still in it.
abbrev IsKept : ℕ → Type 0
IsKept c = (keeps_ascii c ≡ true) × (is_upper c ≡ false)

slug_character : (c : ℕ) → IsKept c → is_space c ≡ false → IsSlugCharacter c
slug_character c h k = ground arith

-- An ASCII slug of at most `n` characters, if there is a limit.
pub record IsSlug (s : List ℕ) (n : Option ℕ) : Type 0 where
  pub characters : All IsSlugCharacter s
  pub single : single_hyphens false s ≡ true
  pub ends : EndsOutside (λ c. c == dash) s
  pub within : IsWithin s n

settled : (c : ℕ) → IsSlugCharacter c → IsSettled c
settled c h = ground arith

ascii_of_slug : (c : ℕ) → IsSlugCharacter c → c < 128
ascii_of_slug c h = ground arith

kept : (c : ℕ) → IsSlugCharacter c → keeps_ascii c ≡ true
kept c h = ground arith

not_space : (c : ℕ) → IsSlugCharacter c → is_space c ≡ false
not_space c h = ground arith

module _ (host : CaseMapping) (is_letter_or_number : ℕ → Bool) where
  open host use {to_lower_case, no_capitals, settled_stays}

  lowered-IsKept : (s : List ℕ) → All IsKept (keep keeps_ascii (to_lower_case s))
  lowered-IsKept s =
      All-zip _ _ (keep keeps_ascii (to_lower_case s)) (All-keep keeps_ascii (to_lower_case s))
        (All-keep_of _ keeps_ascii (to_lower_case s) (no_capitals s))

  -- In either mode the result has no white space, no hyphen beside another or at its end, and at
  -- most `num_chars` characters, if that is given.
  urlify-IsHyphenated :
      (s : List ℕ) (num_chars : Option ℕ) (allow_unicode : Bool)
      → IsHyphenated (urlify host is_letter_or_number s num_chars allow_unicode)
        × IsWithin (urlify host is_letter_or_number s num_chars allow_unicode) num_chars
  unfolding urlify
  urlify-IsHyphenated s n true = (hyphenate-IsHyphenated _ n, hyphenate-IsWithin _ n)
  urlify-IsHyphenated s n false = (hyphenate-IsHyphenated _ n, hyphenate-IsWithin _ n)

  -- Without `allow_unicode` the result is a slug: lower-case ASCII letters, digits, underscores and
  -- single hyphens, none at the end, within the limit.
  pub urlify-IsSlug :
      (s : List ℕ) (num_chars : Option ℕ)
      → IsSlug (urlify host is_letter_or_number s num_chars false) num_chars
  unfolding urlify
  urlify-IsSlug s n =
      let source = keep keeps_ascii (to_lower_case (downcode s)) in
      let words = hyphenate-IsHyphenated source n in
      record {
        characters =
            All-map (λ c h. slug_character c h.0 h.1) (hyphenate source n)
              (All-zip IsKept (λ c. is_space c ≡ false) (hyphenate source n)
                (All-hyphenate IsKept source n (refl, refl) (lowered-IsKept (downcode s)))
                words.no_space);
        single = words.single;
        ends = words.ends;
        within = hyphenate-IsWithin source n;
      }

  -- A slug is its own slug, so `URLify` applied to its own result changes nothing.
  urlify_id :
      (s : List ℕ) (num_chars : Option ℕ)
      → IsSlug s num_chars
      → urlify host is_letter_or_number s num_chars false ≡ s
  unfolding urlify
  urlify_id s n h =
      rw
        (
          downcode_ascii s (All-map ascii_of_slug s h.characters),
          settled_stays s (All-map settled s h.characters),
          keep-All keeps_ascii s (All-map kept s h.characters),
        )
        (hyphenate_id s n
          (record { no_space = All-map not_space s h.characters; single = h.single; ends = h.ends })
          h.within)
