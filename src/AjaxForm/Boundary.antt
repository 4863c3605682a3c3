-- ===== src/AjaxForm/Boundary.antt =====
-- The boundary that the header of a multipart request names.
use agentsecrets_server.Prelude.{
  ℕ, ◌≤◌, ◌≡◌, refl, ap, ◌∙◌, Bool, true, false, Option, some, List, [], ◌∷◌, ◌++◌, length, arith,
  All,
}
use agentsecrets_server.Text.{codes, is_space}
use agentsecrets_server.Text.Search.{equal_text, starts_with}
use agentsecrets_server.Text.Trim.{drop_end_id, EndsOutside}
use agentsecrets_server.AjaxForm.{
  or_text, ajax, submit_with, do_ajax_submit, Form, Request, text, given, is_boundary, all_boundary,
  is_line_end, lines, line_boundary, find_boundary, crlf, multipart, with_boundary,
  override_request,
}

-- A boundary as the script knows it.
pub record IsBoundary (b : List ℕ) : Type 0 where
  pub characters : All (λ c. is_boundary c ≡ true) b
  pub ends : EndsOutside is_space b
  pub low : 1 ≤ length b
  pub high : length b ≤ 70

all_boundary-All : (b : List ℕ) → All (λ c. is_boundary c ≡ true) b → all_boundary b ≡ true
unfolding all_boundary
all_boundary-All [] h = refl
all_boundary-All (c ∷ b) h = rw (h.0, all_boundary-All b h.1) refl

is_boundary-same_line : (c : ℕ) → is_boundary c ≡ true → is_line_end c ≡ false
is_boundary-same_line c h = ground (arith, h)

lines-append :
    (b rest : List ℕ) → All (λ c. is_boundary c ≡ true) b → lines (b ++ 10 ∷ rest) ≡ b ∷ lines rest
unfolding lines
lines-append [] rest h = refl
lines-append (c ∷ b) rest h = rw (lines-append b rest h.1, is_boundary-same_line c h.0) refl

crlf-append :
    (b rest : List ℕ)
    → All (λ c. is_boundary c ≡ true) b
    → crlf (b ++ 10 ∷ rest) ≡ b ++ 13 ∷ 10 ∷ crlf rest
unfolding crlf
crlf-append [] rest h = refl
crlf-append (c ∷ b) rest h = rw (crlf-append b rest h.1) (ground (arith, h.0))

line_boundary-IsBoundary : (b : List ℕ) → IsBoundary b → line_boundary (codes "--" ++ b) ≡ some b
unfolding line_boundary starts_with
line_boundary-IsBoundary b h =
    rw (drop_end_id is_space b h.ends, all_boundary-All b h.characters)
      (ground (arith, h.low, h.high))

submit_with-multipart :
    (has_form_data : Bool) (method : List ℕ) (f : Form)
    → equal_text method (codes "GET") ≡ false
    → submit_with has_form_data method multipart f ≡ ajax (override_request method multipart f)
unfolding submit_with
submit_with-multipart has_form_data method f h = rw h refl

hyphens : (b : List ℕ) → IsBoundary b → All (λ c. is_boundary c ≡ true) (codes "--" ++ b)
hyphens b h = (refl, (refl, h.characters))

find_boundary-first :
    (line b : List ℕ) (more : List (List ℕ))
    → line_boundary line ≡ some b
    → find_boundary (line ∷ more) ≡ some b
unfolding find_boundary
find_boundary-first line b more h = rw (h, find_boundary)

find_boundary-lines :
    (b rest : List ℕ)
    → IsBoundary b
    → find_boundary (lines (codes "--" ++ (b ++ 10 ∷ rest))) ≡ some b
unfolding find_boundary
find_boundary-lines b rest h =
    ap find_boundary (lines-append (codes "--" ++ b) rest (hyphens b h))
    ∙ find_boundary-first (codes "--" ++ b) b (lines rest) (line_boundary-IsBoundary b h)

-- The request with a body and a boundary.
abbrev request_with : List ℕ → Form → List ℕ → Option (List ℕ) → Request
request_with method f body boundary = record {
  url = f.action;
  method = method;
  body = text body;
  content_type = given (with_boundary multipart boundary);
}

override_request-multipart :
    (method : List ℕ) (f : Form)
    → override_request method multipart f
      ≡ request_with method f (crlf f.content) (find_boundary (lines f.content))
unfolding override_request
override_request-multipart method f = refl

-- Where the method is not GET and the form overrides its content type by multipart/form-data, with a
-- content that begins with a delimiter line: a request is made whose header names the boundary of that
-- line, and in whose body the line, and each later one, ends in CR+NL.
pub do_ajax_submit-boundary :
    (to_upper_case : List ℕ → List ℕ) (has_form_data : Bool) (method b rest : List ℕ) (f : Form)
    → to_upper_case
        (or_text f.button_method (or_text f.data_method (or_text f.method (codes "GET"))))
      ≡ method
    → equal_text method (codes "GET") ≡ false
    → or_text f.type_input f.type_option ≡ multipart
    → IsBoundary b
    → f.content ≡ codes "--" ++ (b ++ 10 ∷ rest)
    → do_ajax_submit to_upper_case has_form_data f
      ≡ ajax (record {
        url = f.action;
        method = method;
        body = text (codes "--" ++ (b ++ 13 ∷ 10 ∷ crlf rest));
        content_type = given (multipart ++ (codes "; boundary=\"" ++ (b ++ b'"' ∷ [])));
      })
unfolding do_ajax_submit
do_ajax_submit-boundary to_upper_case has_form_data method b rest f named other override h e =
    ap (λ (m : List ℕ). submit_with has_form_data m (or_text f.type_input f.type_option) f) named
    ∙ ap (λ (t : List ℕ). submit_with has_form_data method t f) override
    ∙ submit_with-multipart has_form_data method f other
    ∙ ap ajax (
        override_request-multipart method f
        ∙ ap (λ (c : List ℕ). request_with method f (crlf c) (find_boundary (lines c))) e
        ∙ ap
            (λ (body : List ℕ).
              request_with method f body (find_boundary (lines (codes "--" ++ (b ++ 10 ∷ rest)))))
            (crlf-append (codes "--" ++ b) rest (hyphens b h))
        ∙ ap (request_with method f (codes "--" ++ (b ++ 13 ∷ 10 ∷ crlf rest)))
            (find_boundary-lines b rest h)
        ∙ unfold with_boundary in refl)
