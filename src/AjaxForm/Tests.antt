-- ===== src/AjaxForm/Tests.antt =====
-- A form whose content is multipart, and the theorem on it.
use agentsecrets_server.Prelude.{◌≡◌, refl, true, [], ◌∷◌, ◌++◌, arith}
use agentsecrets_server.Text.{codes}
use agentsecrets_server.AjaxForm.{Form, ajax, text, given, crlf, multipart, do_ajax_submit}
use agentsecrets_server.AjaxForm.Boundary.{IsBoundary, do_ajax_submit-boundary}

abbrev form : Form
form = record {
  button_method = [];
  data_method = codes "PUT";
  method = codes "POST";
  action = codes "/x/";
  type_input = [];
  type_option = multipart;
  content = codes "--a b\nx";
  enctype = [];
  encoding = [];
  serialized = [];
}

a_b : IsBoundary (codes "a b")
a_b = record {
  characters = (refl, (refl, (refl, tt)));
  ends = refl;
  low = omega arith;
  high = omega arith;
}

do_ajax_submit-boundary_example :
    do_ajax_submit (λ s. s) true form
    ≡ ajax (record {
      url = codes "/x/";
      method = codes "PUT";
      body = text (codes "--" ++ (codes "a b" ++ 13 ∷ 10 ∷ crlf (codes "x")));
      content_type = given (multipart ++ (codes "; boundary=\"" ++ (codes "a b" ++ b'"' ∷ [])));
    })
do_ajax_submit-boundary_example =
    do_ajax_submit-boundary (λ s. s) true (codes "PUT") (codes "a b") (codes "x") form refl refl
      refl a_b refl
