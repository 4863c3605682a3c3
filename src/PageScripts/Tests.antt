-- ===== src/PageScripts/Tests.antt =====
-- A filter that is closed and opened again, the theorem on it, and the tab of a page.
use agentsecrets_server.Prelude.{◌≡◌, refl, [], ◌∷◌, List, true, false, some}
use agentsecrets_server.Text.{codes}
use agentsecrets_server.PageScripts.{shown_tab}
use agentsecrets_server.PageScripts.Filters.{
  Detail, load, toggles, state_of, last_of, restored, state_of-load-toggles,
}

abbrev by_team : Detail
by_team = record { title = codes "team"; open_state = false }

abbrev events : List Detail
events = by_team ∷ record { title = codes "team"; open_state = true } ∷ []

state_of-load-toggles_example :
    state_of (codes "team") (load (toggles events []) (by_team ∷ []))
    ≡ restored
        (last_of (codes "team") events (state_of (codes "team") []))
        (state_of (codes "team") (by_team ∷ []))
state_of-load-toggles_example = state_of-load-toggles (codes "team") events [] (by_team ∷ []) tt

shown_tab_test :
    shown_tab (some (codes "raw-Tab")) (codes "html" ∷ codes "raw-ab" ∷ []) ≡ some (codes "raw-ab")
unfolding shown_tab
shown_tab_test = refl
