-- ===== src/Csrf.antt =====
-- staticfiles/rest_framework/js/csrf.js: the reading of a cookie, and the requests that carry the
-- token. What throws is `none`.

mod Tests
pub mod Cookies
pub mod Origin
use mathlib.Core.Option
use agentsecrets_server.Prelude.{
  ℕ, suc, ◌≡◌, Bool, false, not, ◌&&◌, ◌||◌, Option, none, some, List, [], ◌∷◌, ◌++◌, length, take,
  drop, if◌then◌else◌, ◌==◌, ◌>>=◌,
}
use agentsecrets_server.Text.{codes, is_space}
use agentsecrets_server.Text.Search.{equal_text, starts_with, cons_first}
use agentsecrets_server.Text.Trim.{EndsOutside}

-- A text that is not empty, and neither begins nor ends with white space.
abbrev pub IsTrimmed : List ℕ → Type 0
IsTrimmed [] = ⊥
IsTrimmed (c ∷ s) = (is_space c ≡ false) × EndsOutside is_space (c ∷ s)

-- `jQuery.trim`, which takes the white space off both ends, and `decodeURIComponent`, which throws
-- where the escapes are malformed.
pub record Decoding : Type 0 where
  pub trim : List ℕ → List ℕ
  pub trim_lem : (s : List ℕ) → IsTrimmed s → (trim s ≡ s) × (trim (b' ' ∷ s) ≡ s)
  pub decode : List ℕ → Option (List ℕ)

-- `document.cookie.split(';')`
pub split_cookies : List ℕ → List (List ℕ)
split_cookies [] = [] ∷ []
split_cookies (c ∷ s) =
    let rest = split_cookies s in if c == b';' then [] ∷ rest else cons_first c rest

module _ (host : Decoding) where
  open host use {trim, decode}

  -- The loop; `some none` is `null`.
  pub find_cookie : List ℕ → List (List ℕ) → Option (Option (List ℕ))
  find_cookie name [] = some none
  find_cookie name (c ∷ cookies) =
      let rest = find_cookie name cookies in
      if equal_text (take (suc (length name)) (trim c)) (name ++ b'=' ∷ [])
      then (decode (drop (suc (length name)) (trim c)) >>= λ v. some (some v))
      else rest

  unfoldable pub get_cookie : List ℕ → List ℕ → Option (Option (List ℕ))
  unfolding find_cookie split_cookies
  get_cookie name [] = some none
  get_cookie name (c ∷ cookie) = find_cookie name (split_cookies (c ∷ cookie))

-- `/^(GET|HEAD|OPTIONS|TRACE)$/.test(method)`
unfoldable pub csrf_safe_method : List ℕ → Bool
csrf_safe_method method =
    equal_text method (codes "GET")
    || equal_text method (codes "HEAD")
    || equal_text method (codes "OPTIONS")
    || equal_text method (codes "TRACE")

-- `document.location`
pub record Location : Type 0 where
  pub protocol : List ℕ
  pub host : List ℕ

abbrev pub sr_origin : Location → List ℕ
sr_origin page = codes "//" ++ page.host

abbrev pub origin : Location → List ℕ
origin page = page.protocol ++ sr_origin page

-- `url == origin || url.slice(0, origin.length + 1) == origin + '/'`
pub is_under : List ℕ → List ℕ → Bool
is_under origin url =
    equal_text url origin || equal_text (take (suc (length origin)) url) (origin ++ b'/' ∷ [])

-- `/^(\/\/|http:|https:).*/.test(url)`
pub is_absolute : List ℕ → Bool
unfolding starts_with
is_absolute url =
    starts_with (codes "//") url
    || starts_with (codes "http:") url
    || starts_with (codes "https:") url

unfoldable pub same_origin : Location → List ℕ → Bool
unfolding is_under is_absolute
same_origin page url =
    is_under (origin page) url || is_under (sr_origin page) url || not (is_absolute url)

-- A header with its value.
pub record Header : Type 0 where
  pub name : List ℕ
  pub value : List ℕ

-- `beforeSend`: the headers of the request; `token` is the page's `drf` object.
unfoldable pub before_send : Location → Header → List ℕ → List ℕ → List Header → List Header
unfolding csrf_safe_method same_origin
before_send page token method url headers =
    if not (csrf_safe_method method) && same_origin page url then headers ++ token ∷ [] else headers
