-- ===== src/Csrf/Origin.antt =====
-- Where the token goes: a request to another host does not carry it.
use mathlib.Core.List.{append-nil}
use agentsecrets_server.Prelude.{
  ℕ, suc, ◌≡◌, ◌≢◌, refl, sym, ap, ◌∙◌, Bool, true, false, not, ◌&&◌, ◌||◌, List, [], ◌∷◌, ◌++◌,
  length, take, drop, All, if◌then◌else◌, ◌==◌, arith, Bool-cases, inl, inr,
}
use agentsecrets_server.Text.{codes}
use agentsecrets_server.Text.Search.{equal_text_eq, equal_text_refl, equal_text, starts_with}
use agentsecrets_server.Csrf.{
  Location, Header, csrf_safe_method, is_under, is_absolute, origin, sr_origin, same_origin,
  before_send,
}

-- The schemes that a page of the web has.
pub data Scheme : Type 0 where
  http https : Scheme

abbrev pub scheme_text : Scheme → List ℕ
scheme_text http = codes "http:"
scheme_text https = codes "https:"

-- A URL with an authority: `scheme://authority` or `//authority`, and then a path or nothing.
pub data Start : Type 0 where
  with_scheme : Scheme → Start
  inherited : Start

abbrev pub start_text : Start → List ℕ
start_text (with_scheme s) = scheme_text s
start_text inherited = []

abbrev pub NoSlash : List ℕ → Type 0
NoSlash = All (λ c. (c == b'/') ≡ false)

abbrev pub IsPath : List ℕ → Type 0
IsPath [] = Unit
IsPath (c ∷ s) = c ≡ b'/'

-- The rest of a URL that begins with a text.
take_prefix :
    (a url : List ℕ) (c : ℕ)
    → take (suc (length a)) url ≡ a ++ c ∷ []
    → (rest : List ℕ) × (url ≡ a ++ c ∷ rest)
take_prefix [] [] c h = cc
take_prefix [] (d ∷ url) c h = (url, ground arith)
take_prefix (x ∷ a) [] c h = cc
take_prefix (x ∷ a) (d ∷ url) c h =
    let (rest, e) = take_prefix a url c (ground arith) in (rest, ground arith)

-- The URL is the origin, or the origin with a path.
is_under-IsPath :
    (a url : List ℕ) → is_under a url ≡ true → (path : List ℕ) × (url ≡ a ++ path) × IsPath path
unfolding is_under
is_under-IsPath a url h = elim (Bool-cases (equal_text url a)) [
  | inl same ↦ ([], equal_text_eq url a same ∙ sym (append-nil a), tt)
  | inr other ↦
      let (rest, e) = take_prefix a url b'/' (equal_text_eq _ _ (ground arith)) in
      (b'/' ∷ rest, e, refl)
]

-- A text without a slash, before a path, is determined.
cancel_path :
    (a b p q : List ℕ) → NoSlash a → NoSlash b → IsPath p → IsPath q → a ++ p ≡ b ++ q → a ≡ b
cancel_path [] [] p q h k hp hq e = refl
cancel_path [] (d ∷ b) [] q h k hp hq e = cc
cancel_path [] (d ∷ b) (c ∷ p) q h k hp hq e = absurd (ground arith)
cancel_path (c ∷ a) [] p [] h k hp hq e = cc
cancel_path (c ∷ a) [] p (d ∷ q) h k hp hq e = absurd (ground arith)
cancel_path (c ∷ a) (d ∷ b) p q h k hp hq e = ground (arith, cancel_path a b p q h.1 k.1 hp hq)

take-append : (a rest : List ℕ) (c : ℕ) → take (suc (length a)) (a ++ c ∷ rest) ≡ a ++ c ∷ []
take-append [] rest c = refl
take-append (x ∷ a) rest c = ap (x ∷◌) (take-append a rest c)

or_true : (b : Bool) → (b || true) ≡ true
or_true true = refl
or_true false = refl

IsPath-is_under : (a path : List ℕ) → IsPath path → is_under a (a ++ path) ≡ true
unfolding is_under
IsPath-is_under a [] h = ground (arith, append-nil a, equal_text_refl a)
IsPath-is_under a (c ∷ rest) h =
    rw (h, take-append a rest b'/', equal_text_refl (a ++ b'/' ∷ [])) (or_true _)

cons-apart : (x y : ℕ) (a b : List ℕ) → (x == y) ≡ false → (x ∷ a) ≢ (y ∷ b)
cons-apart x y a b h e = ground arith

abbrev same_scheme : Scheme → Scheme → Bool
same_scheme http http = true
same_scheme https https = true
same_scheme _ _ = false

-- The page of a scheme and a host.
abbrev pub page_at : Scheme → List ℕ → Location
page_at scheme host = record { protocol = scheme_text scheme; host = host }

abbrev pub url_of : Start → List ℕ → List ℕ → List ℕ
url_of start authority path = start_text start ++ (codes "//" ++ (authority ++ path))

-- The browser sends a request for the URL from the page to the page's own scheme and host.
abbrev pub goes_home : Scheme → List ℕ → Start → List ℕ → Bool
goes_home scheme host (with_scheme s) authority = same_scheme s scheme && equal_text authority host
goes_home scheme host inherited authority = equal_text authority host

url_of-is_absolute :
    (start : Start) (authority path : List ℕ) → is_absolute (url_of start authority path) ≡ true
unfolding is_absolute starts_with
url_of-is_absolute (with_scheme http) authority path = refl
url_of-is_absolute (with_scheme https) authority path = refl
url_of-is_absolute inherited authority path = refl

module _ (authority path : List ℕ) (one : NoSlash authority) (place : IsPath path) where
  same_authority :
      (host rest : List ℕ)
      → NoSlash host
      → IsPath rest
      → authority ++ path ≡ host ++ rest
      → equal_text authority host ≡ true
  same_authority host rest two there e =
      rw (cancel_path authority host path rest one two place there e) (equal_text_refl host)

  under_origin-goes_home :
      (scheme : Scheme) (host : List ℕ) (start : Start)
      → NoSlash host
      → is_under (origin (page_at scheme host)) (url_of start authority path) ≡ true
      → goes_home scheme host start authority ≡ true
  under_origin-goes_home scheme host start two h =
      let (rest, e, there) = is_under-IsPath _ _ h in by_start scheme start rest e there
    where
      by_start :
          (scheme : Scheme) (start : Start) (rest : List ℕ)
          → url_of start authority path ≡ origin (page_at scheme host) ++ rest
          → IsPath rest
          → goes_home scheme host start authority ≡ true
      by_start http (with_scheme http) rest e there =
          same_authority host rest two there (ap (drop 7) e)
      by_start https (with_scheme https) rest e there =
          same_authority host rest two there (ap (drop 8) e)
      by_start http (with_scheme https) rest e there =
          absurd (cons-apart b's' b':' _ _ refl (ap (drop 4) e))
      by_start https (with_scheme http) rest e there =
          absurd (cons-apart b':' b's' _ _ refl (ap (drop 4) e))
      by_start http inherited rest e there = absurd (cons-apart b'/' b'h' _ _ refl e)
      by_start https inherited rest e there = absurd (cons-apart b'/' b'h' _ _ refl e)

  under_sr_origin-goes_home :
      (scheme : Scheme) (host : List ℕ) (start : Start)
      → NoSlash host
      → is_under (sr_origin (page_at scheme host)) (url_of start authority path) ≡ true
      → goes_home scheme host start authority ≡ true
  under_sr_origin-goes_home scheme host start two h =
      let (rest, e, there) = is_under-IsPath _ _ h in by_start start rest e there
    where
      by_start :
          (start : Start) (rest : List ℕ)
          → url_of start authority path ≡ sr_origin (page_at scheme host) ++ rest
          → IsPath rest
          → goes_home scheme host start authority ≡ true
      by_start inherited rest e there = same_authority host rest two there (ap (drop 2) e)
      by_start (with_scheme http) rest e there = absurd (cons-apart b'h' b'/' _ _ refl e)
      by_start (with_scheme https) rest e there = absurd (cons-apart b'h' b'/' _ _ refl e)

  same_origin-goes_home :
      (scheme : Scheme) (host : List ℕ) (start : Start)
      → NoSlash host
      → same_origin (page_at scheme host) (url_of start authority path) ≡ true
      → goes_home scheme host start authority ≡ true
  unfolding same_origin
  same_origin-goes_home scheme host start two h =
      elim (Bool-cases (is_under (origin (page_at scheme host)) (url_of start authority path))) [
        | inl e ↦ under_origin-goes_home scheme host start two e
        | inr e ↦
            under_sr_origin-goes_home scheme host start two
              (ground (arith, url_of-is_absolute start authority path))
      ]

  goes_home-same_origin :
      (scheme : Scheme) (host : List ℕ) (start : Start)
      → goes_home scheme host start authority ≡ true
      → same_origin (page_at scheme host) (url_of start authority path) ≡ true
  unfolding same_origin
  goes_home-same_origin http host (with_scheme http) h =
      rw (equal_text_eq authority host h)
        (rw (IsPath-is_under (origin (page_at http host)) path place) refl)
  goes_home-same_origin https host (with_scheme https) h =
      rw (equal_text_eq authority host h)
        (rw (IsPath-is_under (origin (page_at https host)) path place) refl)
  goes_home-same_origin http host (with_scheme https) h = cc
  goes_home-same_origin https host (with_scheme http) h = cc
  goes_home-same_origin scheme host inherited h =
      rw (equal_text_eq authority host h)
        (ground (arith, IsPath-is_under (sr_origin (page_at scheme host)) path place))

Bool-eq : (a b : Bool) → (a ≡ true → b ≡ true) → (b ≡ true → a ≡ true) → a ≡ b
Bool-eq true b f g = sym (f refl)
Bool-eq false true f g = g refl
Bool-eq false false f g = refl

-- For a URL that names an authority, with http:, https: or no scheme, from a page of http: or https:,
-- the request carries the token exactly where its method is not one of the safe ones, its authority
-- is the page's host, and its scheme, if it has one, is the page's.
pub before_send-goes_home :
    (scheme : Scheme) (host : List ℕ) (start : Start) (authority path : List ℕ) (token : Header)
    (method : List ℕ) (headers : List Header)
    → NoSlash host
    → NoSlash authority
    → IsPath path
    → before_send (page_at scheme host) token method (url_of start authority path) headers ≡ (
        if not (csrf_safe_method method) && goes_home scheme host start authority
        then headers ++ token ∷ []
        else headers)
unfolding before_send
before_send-goes_home scheme host start authority path token method headers two one place =
    rw
      (Bool-eq _ (goes_home scheme host start authority)
        (same_origin-goes_home authority path one place scheme host start two)
        (goes_home-same_origin authority path one place scheme host start))
      refl
