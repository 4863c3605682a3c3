-- ===== src/ApiDocs/Response.antt =====
-- api.js: the text of a response in the explorer, and the keys of a request.
pub mod Lines
use agentsecrets_server.Prelude.{ℕ, List, [], ◌∷◌, ◌++◌}
use agentsecrets_server.Text.{codes}
use agentsecrets_server.Text.Decimal.{decimal}
use agentsecrets_server.Text.Replace.{split_on}
use agentsecrets_server.ApiDocs.Header.{UpperCase, normalize_http_header}

-- `normalizeKeys`
pub normalize_keys : List (List ℕ) → List (List ℕ)
normalize_keys [] = []
normalize_keys (key ∷ keys) = split_on (codes " > ") key ++ normalize_keys keys

pub record Header : Type 0 where
  pub name : List ℕ
  pub content : List ℕ

-- What the script reads of a response; the headers are in the order of `headers.forEach`.
pub record Response : Type 0 where
  pub status : ℕ
  pub status_text : List ℕ
  pub headers : List Header

abbrev pub line_feed : ℕ
line_feed = 10

module _ (host : UpperCase) where
  abbrev pub status_line : Response → List ℕ
  status_line r = codes "HTTP/1.1 " ++ (decimal r.status ++ (codes " " ++ r.status_text))

  abbrev pub header_line : Header → List ℕ
  header_line h = normalize_http_header host h.name ++ (codes ": " ++ h.content)

  -- The loop over the headers.
  pub header_lines : List Header → List ℕ
  header_lines [] = []
  header_lines (h ∷ headers) = header_line h ++ line_feed ∷ header_lines headers

  -- An empty response text is not printed.
  abbrev pub body_text : List ℕ → List ℕ
  body_text [] = []
  body_text (c ∷ text) = line_feed ∷ c ∷ text

  pub panel_text : Response → List ℕ → List ℕ
  unfolding header_lines
  panel_text r text = status_line r ++ line_feed ∷ (header_lines r.headers ++ body_text text)
