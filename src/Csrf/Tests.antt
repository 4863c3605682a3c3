-- ===== src/Csrf/Tests.antt =====
-- Cookies and requests of a page, and the theorems on them.
use agentsecrets_server.Prelude.{
  ℕ, ◌≡◌, refl, ap, ◌∙◌, Bool, true, false, not, ◌&&◌, some, List, [], ◌∷◌, All, if◌then◌else◌,
  ◌==◌, arith,
}
use agentsecrets_server.Text.{codes, is_space}
use agentsecrets_server.Text.Trim.{drop_while, drop_end, drop_end_id}
use agentsecrets_server.Csrf.{
  IsTrimmed, Decoding, Header, get_cookie, csrf_safe_method, before_send,
}
use agentsecrets_server.Csrf.Cookies.{Cookie, IsCookie, document_cookie, get_cookie-document_cookie}
use agentsecrets_server.Csrf.Origin.{
  https, with_scheme, url_of, page_at, goes_home, before_send-goes_home,
}

trim : List ℕ → List ℕ
trim s = drop_end is_space (drop_while is_space s)

drop_while_stays : (c : ℕ) (s : List ℕ) → is_space c ≡ false → drop_while is_space (c ∷ s) ≡ c ∷ s
unfolding drop_while
drop_while_stays c s h = rw (h, drop_while)

trim_lem : (s : List ℕ) → IsTrimmed s → (trim s ≡ s) × (trim (b' ' ∷ s) ≡ s)
unfolding trim drop_while
trim_lem [] h = absurd h
trim_lem (c ∷ s) h =
    let e = ap (drop_end is_space) (drop_while_stays c s h.0) ∙ drop_end_id is_space (c ∷ s) h.1 in
    (e, e)

absent : ℕ → List ℕ → Bool
absent x [] = true
absent x (c ∷ s) = not (c == x) && absent x s

absent-All : (x : ℕ) (s : List ℕ) → absent x s ≡ true → All (λ c. (c == x) ≡ false) s
unfolding absent
absent-All x [] h = tt
absent-All x (c ∷ s) h = (ground arith, absent-All x s (ground arith))

-- A host for texts without escapes.
abbrev plain : Decoding
plain = record { trim = trim; trim_lem = trim_lem; decode = some }

abbrev cookies : List Cookie
cookies =
    record { name = codes "xcsrftoken"; value = codes "1" }
    ∷ record { name = codes "csrftoken"; value = codes "a=b" }
    ∷ []

cookies-IsCookie : All IsCookie cookies
unfolding absent
cookies-IsCookie = (
  record {
    name_plain = absent-All b'=' (codes "xcsrftoken") refl;
    no_semicolon = absent-All b';' (codes "xcsrftoken=1") refl;
    trimmed = (refl, refl);
  },
  (
    record {
      name_plain = absent-All b'=' (codes "csrftoken") refl;
      no_semicolon = absent-All b';' (codes "csrftoken=a=b") refl;
      trimmed = (refl, refl);
    },
    tt,
  ),
)

get_cookie-document_cookie_example :
    get_cookie plain (codes "csrftoken") (document_cookie cookies) ≡ some (some (codes "a=b"))
unfolding absent
get_cookie-document_cookie_example =
    get_cookie-document_cookie plain (codes "csrftoken") (absent-All b'=' (codes "csrftoken") refl)
      cookies cookies-IsCookie

abbrev token : Header
token = record { name = codes "X-CSRFToken"; value = codes "abc" }

before_send-goes_home_example :
    before_send
      (page_at https (codes "a.b"))
      token
      (codes "POST")
      (url_of (with_scheme https) (codes "a.b") (codes "/x"))
      []
    ≡ (if not (csrf_safe_method (codes "POST"))
          && goes_home https (codes "a.b") (with_scheme https) (codes "a.b")
        then token ∷ []
        else [])
unfolding absent
before_send-goes_home_example =
    before_send-goes_home https (codes "a.b") (with_scheme https) (codes "a.b") (codes "/x") token
      (codes "POST") [] (absent-All b'/' (codes "a.b") refl) (absent-All b'/' (codes "a.b") refl)
      refl

-- A scheme in capitals is taken for a relative URL, so the token leaves the page's host.
capital_scheme :
    before_send (page_at https (codes "a.b")) token (codes "POST") (codes "HTTPS://c.d/") []
    ≡ token ∷ []
unfolding before_send
capital_scheme = refl
