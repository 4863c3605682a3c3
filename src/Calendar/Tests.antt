-- ===== src/Calendar/Tests.antt =====
-- Months as they are drawn, and the theorems at concrete dates.
use agentsecrets_server.Prelude.{
  ℕ, ◌+◌, ◌≡◌, refl, Option, none, some, List, [], ◌∷◌, map, arith, get_elem?, All,
}
use agentsecrets_server.Prelude.Int.{pos}
use agentsecrets_server.Calendar.{Cell, Day, Calendar, draw}
use agentsecrets_server.Calendar.Dates.{
  get_days_in_month, get_day, day_number, get_days_in_month_exact,
}
use agentsecrets_server.Calendar.Names.{days_of_week_initial}
use agentsecrets_server.Calendar.Grid.{IsWeek}
use agentsecrets_server.Calendar.Grid.Weekdays.{day_of, draw_weekdays}

abbrev today : Day
today = record { full_year = pos 2026; month = 10; date = 25 }

abbrev numbers : List (List Cell) → List (List (Option ℕ))
numbers = map (map day_of)

-- November 2026 with weeks from Monday begins on a Sunday.
november :
    get_elem? (numbers (draw 1 today 11 (pos 2026) none).rows) 0
    ≡ some (none ∷ none ∷ none ∷ none ∷ none ∷ none ∷ some 1 ∷ [])
unfolding draw
november = refl

-- February 2027 fills four rows exactly.
february :
    get_elem? (numbers (draw 1 today 2 (pos 2027) none).rows) 3
    ≡ some (some 22 ∷ some 23 ∷ some 24 ∷ some 25 ∷ some 26 ∷ some 27 ∷ some 28 ∷ [])
unfolding draw
february = refl

get_days_in_month_exact_example :
    day_number 2028 1 1 + get_days_in_month 2 (pos 2028) ≡ day_number 2028 2 1
get_days_in_month_exact_example = get_days_in_month_exact 2028 1 (omega arith)

draw_weekdays_example :
    All IsWeek (draw 1 today 11 (pos 2026) (some today)).rows
    × ((r c k : ℕ) (row : List Cell) (x : Cell)
        → get_elem? (draw 1 today 11 (pos 2026) (some today)).rows r ≡ some row
        → get_elem? row c ≡ some x
        → day_of x ≡ some k
        → get_elem? (draw 1 today 11 (pos 2026) (some today)).header c
          ≡ some (get_elem? days_of_week_initial (get_day (pos 2026) 10 k)))
draw_weekdays_example =
    draw_weekdays 1 today 11 (pos 2026) (some today) (omega arith) (omega arith) (omega arith)
      (omega arith)

abbrev calendar : Calendar
calendar = record { current_month = 11; current_year = pos 2026; selected = some today }
