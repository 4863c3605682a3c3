-- ===== src/Csrf/Cookies.antt =====
-- Reading back a cookie from the text that the browser makes of the cookies.
use mathlib.Core.List.{append_assoc}
use agentsecrets_server.Prelude.{
  append-cons-ne-nil, ℕ, suc, ◌≡◌, ◌≢◌, refl, sym, ap, ◌∙◌, true, false, Option, none, some, List,
  [], ◌∷◌, ◌++◌, length, take, drop, All, All-append, if◌then◌else◌, ◌==◌, ◌>>=◌, arith, Bool-cases,
  inl, inr,
}
use agentsecrets_server.Text.Search.{equal_text}
use agentsecrets_server.Csrf.{IsTrimmed, Decoding, split_cookies, find_cookie, get_cookie}

pub record Cookie : Type 0 where
  pub name : List ℕ
  pub value : List ℕ

abbrev pub pair : Cookie → List ℕ
pair c = c.name ++ b'=' ∷ c.value

-- What `document.cookie` reads: the pairs, with a semicolon and a space between two.
abbrev pub document_cookie : List Cookie → List ℕ
document_cookie [] = []
document_cookie (c ∷ []) = pair c
document_cookie (c ∷ d ∷ cs) = pair c ++ b';' ∷ b' ' ∷ document_cookie (d ∷ cs)

-- What the browser allows in a cookie.
pub record IsCookie (c : Cookie) : Type 0 where
  pub name_plain : All (λ x. (x == b'=') ≡ false) c.name
  pub no_semicolon : All (λ x. (x == b';') ≡ false) (pair c)
  pub trimmed : IsTrimmed (pair c)

-- The value of the first cookie with the name, decoded.
abbrev pub lookup : Decoding → List ℕ → List Cookie → Option (Option (List ℕ))
lookup host name [] = some none
lookup host name (c ∷ cs) =
    let rest = lookup host name cs in
    if equal_text c.name name then (host.decode c.value >>= λ v. some (some v)) else rest

split_cookies-append :
    (s t : List ℕ)
    → All (λ x. (x == b';') ≡ false) s
    → split_cookies (s ++ b';' ∷ t) ≡ s ∷ split_cookies t
unfolding split_cookies
split_cookies-append [] t h = refl
split_cookies-append (c ∷ s) t h = rw (split_cookies-append s t h.1, h.0) refl

split_cookies-single : (s : List ℕ) → All (λ x. (x == b';') ≡ false) s → split_cookies s ≡ s ∷ []
unfolding split_cookies
split_cookies-single [] h = refl
split_cookies-single (c ∷ s) h = rw (split_cookies-single s h.1, h.0) refl

-- The parts, the first after some white space.
abbrev parts : List ℕ → List Cookie → List (List ℕ)
parts before [] = []
parts before (c ∷ cs) = (before ++ pair c) ∷ parts (b' ' ∷ []) cs

split_cookies-parts :
    (before : List ℕ) (c : Cookie) (cs : List Cookie)
    → All (λ x. (x == b';') ≡ false) before
    → All IsCookie (c ∷ cs)
    → split_cookies (before ++ document_cookie (c ∷ cs)) ≡ parts before (c ∷ cs)
split_cookies-parts before c [] h k =
    split_cookies-single (before ++ pair c) (All-append _ before (pair c) h k.0.no_semicolon)
split_cookies-parts before c (d ∷ cs) h k =
    ap split_cookies (sym (append_assoc before (pair c) _))
    ∙ split_cookies-append (before ++ pair c) _ (All-append _ before (pair c) h k.0.no_semicolon)
    ∙ ap ((before ++ pair c) ∷◌) (split_cookies-parts (b' ' ∷ []) d cs (refl, tt) k.1)

-- The test of a part compares the names.
take-pair :
    (name other value : List ℕ)
    → All (λ x. (x == b'=') ≡ false) name
    → All (λ x. (x == b'=') ≡ false) other
    → equal_text (take (suc (length name)) (other ++ b'=' ∷ value)) (name ++ b'=' ∷ [])
      ≡ equal_text other name
take-pair [] [] value h k = refl
take-pair [] (x ∷ other) value h k = rw k.0 refl
take-pair (y ∷ name) [] value h k = ground (arith, h.0)
take-pair (y ∷ name) (x ∷ other) value h k = ground (arith, take-pair name other value h.1 k.1)

drop-pair :
    (name other value : List ℕ)
    → equal_text other name ≡ true
    → drop (suc (length name)) (other ++ b'=' ∷ value) ≡ value
drop-pair [] [] value h = refl
drop-pair [] (x ∷ other) value h = cc
drop-pair (y ∷ name) [] value h = cc
drop-pair (y ∷ name) (x ∷ other) value h = ground (arith, drop-pair name other value)

module _ (host : Decoding) (name : List ℕ) (plain : All (λ x. (x == b'=') ≡ false) name) where
  find_cookie-cons :
      (c : Cookie) (part : List ℕ) (rest : List (List ℕ)) (cs : List Cookie)
      → IsCookie c
      → host.trim part ≡ pair c
      → find_cookie host name rest ≡ lookup host name cs
      → find_cookie host name (part ∷ rest) ≡ lookup host name (c ∷ cs)
  unfolding find_cookie
  find_cookie-cons c part rest cs v t e = elim (Bool-cases (equal_text c.name name)) [
    | inl same ↦
        rw
          (
            t,
            take-pair name c.name c.value plain v.name_plain,
            same,
            drop-pair name c.name c.value same,
          )
          refl
    | inr other ↦ rw (t, take-pair name c.name c.value plain v.name_plain, other, e) refl
  ]

  find_cookie-later :
      (cs : List Cookie)
      → All IsCookie cs
      → find_cookie host name (parts (b' ' ∷ []) cs) ≡ lookup host name cs
  unfolding find_cookie
  find_cookie-later [] v = refl
  find_cookie-later (c ∷ cs) v =
      find_cookie-cons c _ _ cs v.0 (host.trim_lem (pair c) v.0.trimmed).1
        (find_cookie-later cs v.1)

  find_cookie-parts :
      (c : Cookie) (cs : List Cookie)
      → All IsCookie (c ∷ cs)
      → find_cookie host name (split_cookies (document_cookie (c ∷ cs))) ≡ lookup host name (c ∷ cs)
  find_cookie-parts c cs v = rw (split_cookies-parts [] c cs tt v) (
      find_cookie-cons c _ _ cs v.0 (host.trim_lem (pair c) v.0.trimmed).0
        (find_cookie-later cs v.1))

  get_cookie-text :
      (text : List ℕ)
      → text ≢ []
      → get_cookie host name text ≡ find_cookie host name (split_cookies text)
  unfolding get_cookie
  get_cookie-text [] h = absurd (h refl)
  get_cookie-text (c ∷ text) h = refl

  document_cookie-ne-nil : (c : Cookie) (cs : List Cookie) → document_cookie (c ∷ cs) ≢ []
  document_cookie-ne-nil c [] e = append-cons-ne-nil c.name b'=' c.value e
  document_cookie-ne-nil c (d ∷ cs) e = append-cons-ne-nil (pair c) b';' _ e

  -- Of the text that the browser makes of its cookies, and a name without an equals sign, `getCookie`
  -- gives the decoded value of the first cookie with exactly this name, throws where that value is
  -- malformed, and gives null where no cookie has the name.
  pub get_cookie-document_cookie :
      (cs : List Cookie)
      → All IsCookie cs
      → get_cookie host name (document_cookie cs) ≡ lookup host name cs
  unfolding get_cookie
  get_cookie-document_cookie [] v = refl
  get_cookie-document_cookie (c ∷ cs) v =
      get_cookie-text (document_cookie (c ∷ cs)) (document_cookie-ne-nil c cs)
      ∙ find_cookie-parts c cs v
