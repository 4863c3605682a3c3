-- ===== src/NavSidebar/Tests.antt =====
-- Clicks and filters on a small sidebar, and the theorems on it.
use agentsecrets_server.Prelude.{
  ℕ, List, [], ◌∷◌, map, some, true, false, ◌≡◌, ◌≢◌, ◌↔◌, refl, All, arith,
}
use agentsecrets_server.Text.{codes, ascii_case}
use agentsecrets_server.Text.Case.{lower_ascii}
use agentsecrets_server.NavSidebar.{Entry, Filter, check_value, check_entries, matches}
use agentsecrets_server.NavSidebar.QuickFilter.{ShownFor, IsHidden, check_value-exact}
use agentsecrets_server.Text.Search.{includes}

abbrev filter : Filter
filter = record {
  entries =
      record { title = codes "Users"; hidden = false }
      ∷ record { title = codes "Secrets"; hidden = false }
      ∷ [];
  value = codes "SEC";
  no_results = false;
  stored = some [];
}

one_shown : map Entry.hidden (check_value ascii_case false filter).entries ≡ true ∷ false ∷ []
unfolding check_value check_entries matches includes
one_shown = refl

check_value-exact_example :
    (map Entry.title (check_value ascii_case false filter).entries
      ≡ codes "Users" ∷ codes "Secrets" ∷ [])
    × All (ShownFor ascii_case (codes "sec")) (check_value ascii_case false filter).entries
    × (((check_value ascii_case false filter).no_results ≡ true) ↔ (
        (codes "sec" ≢ [])
        × All (IsHidden ascii_case) (check_value ascii_case false filter).entries))
check_value-exact_example = check_value-exact ascii_case filter

lower_ascii_again : (s : List ℕ) → lower_ascii (lower_ascii s) ≡ lower_ascii s
lower_ascii_again [] = refl
lower_ascii_again (c ∷ s) = ground (arith, lower_ascii_again s)
