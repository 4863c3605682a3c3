-- ===== src/Theme/Tests.antt =====
-- A page that finds an unknown theme in the storage, and the theorems on it.

use agentsecrets_server.Prelude.{
  [], ◌∷◌, some, none, true, false, ◌≡◌, refl, ◌%◌, get_elem?, replicate,
}
use agentsecrets_server.Theme.{Document, cycle_theme, init_theme, set_theme, or_auto}
use agentsecrets_server.Theme.Cycle.{auto, showing, clicks, cycle_theme-order, order}

abbrev unknown : Document
unknown = record { theme = none; stored = some "sepia"; errors = [] }

reset_to_auto : init_theme unknown ≡ showing auto ("sepia" ∷ [])
unfolding init_theme set_theme or_auto
reset_to_auto = refl

two_clicks : (clicks (true ∷ false ∷ []) (init_theme unknown)).theme ≡ some "auto"
unfolding init_theme cycle_theme set_theme or_auto
two_clicks = refl

abbrev fresh : Document
fresh = record { theme = none; stored = none; errors = [] }

cycle_theme-order_example :
    ((clicks (replicate 4 true) (init_theme fresh)).theme ≡ get_elem? (order true) (4 % 3))
    × ((clicks (replicate 4 true) (init_theme fresh)).stored ≡ get_elem? (order true) (4 % 3))
cycle_theme-order_example = cycle_theme-order true 4 fresh (λ e. cc) (λ e. cc)
