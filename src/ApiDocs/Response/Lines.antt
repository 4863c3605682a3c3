-- ===== src/ApiDocs/Response/Lines.antt =====
-- What the lines of a shown response are.
use agentsecrets_server.Prelude.{
  ℕ, ◌≡◌, refl, ap, ◌∙◌, List, [], ◌∷◌, ◌++◌, false, map, ◌==◌, arith, All, All-append, All-map,
}
use mathlib.Core.List.{append_assoc}
use agentsecrets_server.Text.{codes}
use agentsecrets_server.Text.Decimal.{decimal, AreDigits-decimal}
use agentsecrets_server.Text.Replace.{split_on, split_on-unit, Pairwise}
use agentsecrets_server.ApiDocs.Header.{UpperCase, normalize_http_header}
use agentsecrets_server.ApiDocs.Header.Capitals.{
  IsNameUnit, IsSingleDashed, Raises, normalize_http_header_lem,
}
use agentsecrets_server.ApiDocs.Response.{
  Header, Response, line_feed, status_line, header_line, header_lines, body_text, panel_text,
}

abbrev pub NoFeed : ℕ → Type 0
NoFeed c = (c == line_feed) ≡ false

-- A header that a server can send.
abbrev pub IsHeader : Header → Type 0
IsHeader h = All IsNameUnit h.name × IsSingleDashed h.name × All NoFeed h.content

abbrev pub lines : List ℕ → List (List ℕ)
lines s = split_on (codes "\n") s

-- The lines that follow the headers.
abbrev pub body_lines : List ℕ → List (List ℕ)
body_lines [] = [] ∷ []
body_lines (c ∷ text) = [] ∷ lines (c ∷ text)

raised_NoFeed : (c d : ℕ) → IsNameUnit c → Raises c d → NoFeed d
raised_NoFeed c d h k = ground (arith, k.0)

Raised-NoFeed : (s t : List ℕ) → All IsNameUnit s → Pairwise Raises s t → All NoFeed t
Raised-NoFeed [] [] h k = tt
Raised-NoFeed [] (d ∷ t) h k = absurd k
Raised-NoFeed (c ∷ s) [] h k = absurd k
Raised-NoFeed (c ∷ s) (d ∷ t) h k = (raised_NoFeed c d h.0 k.0, Raised-NoFeed s t h.1 k.1)

decimal-NoFeed : (n : ℕ) → All NoFeed (decimal n)
decimal-NoFeed n = All-map (λ c h. ground arith) (decimal n) (AreDigits-decimal n)

module _ (host : UpperCase) where
  header_line-NoFeed : (h : Header) → IsHeader h → All NoFeed (header_line host h)
  header_line-NoFeed h (units, dashes, content) =
      All-append NoFeed (normalize_http_header host h.name) (codes ": " ++ h.content)
        (Raised-NoFeed h.name _ units (normalize_http_header_lem host h.name units dashes).0)
        (refl, (refl, content))

  status_line-NoFeed : (r : Response) → All NoFeed r.status_text → All NoFeed (status_line host r)
  status_line-NoFeed r h =
      All-append NoFeed (codes "HTTP/1.1 ") (decimal r.status ++ (codes " " ++ r.status_text))
        (refl, (refl, (refl, (refl, (refl, (refl, (refl, (refl, (refl, tt)))))))))
        (All-append NoFeed (decimal r.status) (codes " " ++ r.status_text) (decimal-NoFeed r.status)
          (refl, h))

  lines-body_text : (text : List ℕ) → lines (body_text host text) ≡ body_lines text
  unfolding split_on
  lines-body_text [] = refl
  lines-body_text (c ∷ text) = split_on-unit line_feed [] (c ∷ text) tt

  lines-header_lines :
      (headers : List Header) (text : List ℕ)
      → All IsHeader headers
      → lines (header_lines host headers ++ body_text host text)
        ≡ map (header_line host) headers ++ body_lines text
  unfolding header_lines
  lines-header_lines [] text h = lines-body_text text
  lines-header_lines (h ∷ headers) text k =
      ap lines (append_assoc (header_line host h) _ (body_text host text))
      ∙ split_on-unit line_feed (header_line host h) _ (header_line-NoFeed h k.0)
      ∙ ap (header_line host h ∷◌) (lines-header_lines headers text k.1)

  -- Where the status text and the headers hold no line feed, and the headers' names are of visible
  -- ASCII with no two adjacent hyphens: the lines of what is shown are the status, one line for each
  -- header in order, and then an empty line, which the lines of the body follow if it has a text.
  pub lines-panel_text :
      (r : Response) (text : List ℕ)
      → All NoFeed r.status_text
      → All IsHeader r.headers
      → lines (panel_text host r text)
        ≡ status_line host r ∷ (map (header_line host) r.headers ++ body_lines text)
  unfolding panel_text
  lines-panel_text r text h k =
      split_on-unit line_feed (status_line host r) _ (status_line-NoFeed r h)
      ∙ ap (status_line host r ∷◌) (lines-header_lines r.headers text k)
