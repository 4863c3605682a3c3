-- ===== src/AjaxForm.antt =====
-- staticfiles/rest_framework/js/ajax-form.js: what a form of the API pages does when it is submitted.

mod Tests
pub mod Boundary
use agentsecrets_server.Prelude.{
  ℕ, Bool, true, ◌&&◌, ◌||◌, Option, none, some, List, [], ◌∷◌, ◌++◌, length, drop, if◌then◌else◌,
  ◌==◌, leb,
}
use agentsecrets_server.Text.{codes, is_space, is_digit, is_upper, is_lower}
use agentsecrets_server.Text.Search.{equal_text, starts_with, cons_first}
use agentsecrets_server.Text.Trim.{drop_end}

-- What jQuery finds in the form and on the button that was clicked; a value that is missing is the
-- empty text, which the script treats in the same way.
pub record Form : Type 0 where
  pub button_method : List ℕ
  pub data_method : List ℕ
  pub method : List ℕ
  pub action : List ℕ
  pub type_input : List ℕ
  pub type_option : List ℕ
  pub content : List ℕ
  pub enctype : List ℕ
  pub encoding : List ℕ
  pub serialized : List ℕ

-- The body of a request: a text, or the `FormData` of the form.
pub data Body : Type 0 where
  text : List ℕ → Body
  form_data : Body

-- `contentType`; `automatic` is `false`, with which the browser sets it.
pub data ContentType : Type 0 where
  given : List ℕ → ContentType
  automatic : ContentType

pub record Request : Type 0 where
  pub url : List ℕ
  pub method : List ℕ
  pub body : Body
  pub content_type : ContentType

-- The browser's own submission, an alert and no submission, or a request.
pub data Outcome : Type 0 where
  standard alerted : Outcome
  ajax : Request → Outcome

-- `a || b`
abbrev pub or_text : List ℕ → List ℕ → List ℕ
or_text [] b = b
or_text (c ∷ a) b = c ∷ a

-- The class of `boundaryCharNoSpace`, where the flag makes small letters count.
abbrev pub is_boundary_no_space : ℕ → Bool
is_boundary_no_space c =
    is_digit c
    || is_upper c
    || is_lower c
    || c == b'\''
    || c == b'('
    || c == b')'
    || c == b'+'
    || c == b'_'
    || c == b','
    || c == b'-'
    || c == b'.'
    || c == b'/'
    || c == b':'
    || c == b'='
    || c == b'?'

abbrev pub is_boundary : ℕ → Bool
is_boundary c = is_boundary_no_space c || c == b' '

pub all_boundary : List ℕ → Bool
all_boundary [] = true
all_boundary (c ∷ s) = is_boundary c && all_boundary s

abbrev pub is_line_end : ℕ → Bool
is_line_end c = c == 10 || c == 13 || c == 0x2028 || c == 0x2029

-- The lines between which `^` and `$` match.
pub lines : List ℕ → List (List ℕ)
lines [] = [] ∷ []
lines (c ∷ s) = let rest = lines s in if is_line_end c then [] ∷ rest else cons_first c rest

-- The group of the expression in a line that it matches: after two hyphens one to 70 characters of the
-- class, the last no space, and then white space to the end.
pub line_boundary : List ℕ → Option (List ℕ)
unfolding all_boundary drop_end starts_with
line_boundary line =
    let boundary = drop_end is_space (drop 2 line) in
    if starts_with (codes "--") line
      && leb 1 (length boundary)
      && leb (length boundary) 70
      && all_boundary boundary
    then some boundary
    else none

-- `data.match(re)`, its group.
pub find_boundary : List (List ℕ) → Option (List ℕ)
unfolding line_boundary
find_boundary [] = none
find_boundary (line ∷ more) =
    let rest = find_boundary more in elim (line_boundary line) [ some b ↦ some b | none ↦ rest ]

-- `data.replace(/\n/g, '\r\n')`
pub crlf : List ℕ → List ℕ
crlf [] = []
crlf (c ∷ s) = let rest = crlf s in if c == 10 then 13 ∷ 10 ∷ rest else c ∷ rest

abbrev pub multipart : List ℕ
multipart = codes "multipart/form-data"

-- The content type with the boundary of the body.
pub with_boundary : List ℕ → Option (List ℕ) → List ℕ
with_boundary content_type none = content_type
with_boundary content_type (some boundary) =
    content_type ++ (codes "; boundary=\"" ++ (boundary ++ b'"' ∷ []))

-- The request where the form overrides its content type.
unfoldable pub override_request : List ℕ → List ℕ → Form → Request
unfolding find_boundary lines crlf with_boundary
override_request method content_type f =
    if equal_text content_type multipart
    then record {
      url = f.action;
      method = method;
      body = text (crlf f.content);
      content_type = given (with_boundary content_type (find_boundary (lines f.content)));
    }
    else record {
      url = f.action;
      method = method;
      body = text f.content;
      content_type = given content_type;
    }

-- The outcome for the form's own fields; `has_form_data` says whether the browser has `FormData`.
unfoldable pub own_request : Bool → List ℕ → Form → Outcome
own_request has_form_data method f =
    if equal_text (or_text f.enctype f.encoding) multipart
    then (if has_form_data
        then ajax
            (record { url = f.action; method = method; body = form_data; content_type = automatic })
        else alerted)
    else ajax (record {
      url = f.action;
      method = method;
      body = text f.serialized;
      content_type = given (codes "application/x-www-form-urlencoded; charset=UTF-8");
    })

-- What follows once the method and the content type have been read.
unfoldable pub submit_with : Bool → List ℕ → List ℕ → Form → Outcome
unfolding override_request own_request
submit_with has_form_data method content_type f =
    if equal_text method (codes "GET")
    then standard
    else if equal_text content_type []
    then (if equal_text method (codes "POST") then standard else own_request has_form_data method f)
    else ajax (override_request method content_type f)

-- `to_upper_case` is the host's.
unfoldable pub do_ajax_submit : (List ℕ → List ℕ) → Bool → Form → Outcome
unfolding submit_with
do_ajax_submit to_upper_case has_form_data f =
    submit_with has_form_data
      (to_upper_case
        (or_text f.button_method (or_text f.data_method (or_text f.method (codes "GET")))))
      (or_text f.type_input f.type_option) f

-- What the page does with the response.
pub data After : Type 0 where
  replaced replaced_then_redirected redirected : After

-- `content_type` is the response's header in lower case, empty where it is missing; `has_history` says
-- whether `history.replaceState` works.
unfoldable pub on_response : Bool → List ℕ → After
on_response has_history content_type =
    if starts_with (codes "text/html") content_type
    then (if has_history then replaced else replaced_then_redirected)
    else redirected
