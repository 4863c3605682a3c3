-- ===== src/ApiDocs/Tests.antt =====
-- A header's name, the parameters of a small form, a response, and clicks in two dialogs.
use agentsecrets_server.Prelude.{
  if◌then◌else◌, ℕ, ◌≡◌, refl, true, false, List, [], ◌∷◌, ◌++◌, map, Option, none, some, All, ◌⊎◌,
  arith,
}
use agentsecrets_server.Prelude.Int.{ℤ, pos}
use agentsecrets_server.Text.{codes}
use agentsecrets_server.Text.Search.{equal_text, starts_with}
use agentsecrets_server.Text.Replace.{Pairwise, replace_all}
use agentsecrets_server.ApiDocs.Header.{UpperCase, upper_ascii, normalize_http_header}
use agentsecrets_server.ApiDocs.Header.Capitals.{
  IsNameUnit, IsSingleDashed, IsCapitalized, Raises, normalize_http_header_lem,
}
use agentsecrets_server.ApiDocs.Params.{
  Entry, text_entry, Value, boolean, Parsing, kind_of, params_of, Params,
}
use agentsecrets_server.ApiDocs.Params.Exact.{
  Converts, kind, contains, last_param, or_unchecked, params_of_exact,
}
use agentsecrets_server.ApiDocs.Params.Types.{IsReadFrom, params_of-IsReadFrom}
use agentsecrets_server.ApiDocs.Response.{Response, panel_text, status_line, header_line}
use agentsecrets_server.ApiDocs.Response.Lines.{lines, body_lines, lines-panel_text}
use agentsecrets_server.ApiDocs.Explorer.{
  data_view, raw_view, Dialog, Page, is_data, settled, toggled, run,
}
use agentsecrets_server.ApiDocs.Explorer.Views.{view, follow, run-view}

abbrev ascii : UpperCase
ascii = record { to_upper_case = map upper_ascii; ascii_upper = λ s h. refl }

abbrev name : List ℕ
name = codes "www-x"

normalize_test : normalize_http_header ascii (codes "content-md5") ≡ codes "Content-MD5"
unfolding normalize_http_header replace_all starts_with
normalize_test = refl

name_units : All IsNameUnit name
name_units = ground arith

name_dashes : IsSingleDashed name
name_dashes = ground arith

normalize_http_header_lem_example :
    Pairwise Raises name (normalize_http_header ascii name)
    × IsCapitalized true (normalize_http_header ascii name)
normalize_http_header_lem_example = normalize_http_header_lem ascii name name_units name_dashes

-- A host that reads single digits.
abbrev digit : List ℕ → Option ℤ
digit s = if equal_text s (codes "0") then some (pos 0) else none

abbrev host : Parsing ℕ ℕ
host = record {
  parse_int = digit;
  parse_float = λ s. none;
  parse_json = λ s. none;
  to_lower_case = λ s. s;
}

abbrev types : List ℕ → List ℕ
types s = if equal_text s (codes "n") then codes "integer" else []

abbrev entries : List Entry
entries = text_entry (codes "n") (codes "0") ∷ text_entry (codes "a") (codes "x") ∷ []

abbrev boxes : List (List ℕ)
boxes = codes "b" ∷ []

entries_convert : All (λ (e : Entry). Converts (kind host types e) e.raw) entries
unfolding kind_of
entries_convert = (tt, (tt, tt))

params_of_exact_example :
    (params : Params host) × (params_of host types entries boxes ≡ some params)
    × ((name : List ℕ)
        → params name
          ≡ or_unchecked host types (contains name boxes) (last_param host types name entries))
params_of_exact_example = params_of_exact host types entries boxes entries_convert

params_of-IsReadFrom_example :
    (params : Params host) × (params_of host types entries boxes ≡ some params)
    × ((name : List ℕ) (v : Value ℕ ℕ)
        → params name ≡ some v
        → IsReadFrom host types entries name v
          ⊎ ((contains name boxes ≡ true) × (v ≡ boolean false)))
params_of-IsReadFrom_example = params_of-IsReadFrom host types entries boxes entries_convert

abbrev response : Response
response = record {
  status = 200;
  status_text = codes "OK";
  headers = record { name = name; content = codes "a: b" } ∷ [];
}

lines-panel_text_example :
    lines (panel_text ascii response (codes "x"))
    ≡ status_line ascii response
      ∷ (map (header_line ascii) response.headers ++ body_lines (codes "x"))
lines-panel_text_example =
    lines-panel_text ascii response (codes "x") (refl, (refl, tt))
      ((name_units, name_dashes, (refl, (refl, (refl, (refl, tt))))), tt)

abbrev dialog : Dialog
dialog = record {
  toggle_hidden = true;
  marked = is_data;
  plain = λ d. true;
  is_success = false;
  is_danger = false;
  request_method = [];
  request_url = [];
  status_code = 0;
  meta_hidden = true;
  raw_text = [];
  awaiting_hidden = false;
  raw_hidden = true;
  data_hidden = true;
  data_text = [];
}

abbrev page : Page
page = record { display = data_view; dialogs = λ n. dialog }

run-view_example :
    view ((run ascii page (settled 0 [] ∷ toggled 1 raw_view ∷ settled 0 [] ∷ [])).dialogs 0)
    ≡ follow 0 data_view (view dialog) (settled 0 [] ∷ toggled 1 raw_view ∷ settled 0 [] ∷ [])
run-view_example = run-view ascii 0 page (settled 0 [] ∷ toggled 1 raw_view ∷ settled 0 [] ∷ [])
