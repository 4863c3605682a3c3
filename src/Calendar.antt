-- ===== src/Calendar.antt =====
-- staticfiles/admin/js/calendar.js: the month that is drawn, and the calendar that steps from month
-- to month. A year is an integer, as `currentYear--` has no bound; a month is a number from 1 to 12.
mod Tests
pub mod Dates
pub mod Names
pub mod Grid
pub mod Navigation
use agentsecrets_server.Prelude.{
  ℕ, zero, suc, ◌+◌, ◌-◌, ◌*◌, ◌%◌, Bool, false, not, ◌&&◌, Option, none, some, List, [], ◌∷◌, ◌++◌,
  map, ◌==◌, if◌then◌else◌, length, get_elem?, replicate,
}
use Prim.Native.String.{String}
use agentsecrets_server.Prelude.Int.{ℤ, pos, negsuc, inc, dec}
use agentsecrets_server.Calendar.Dates.{get_days_in_month, get_day}
use agentsecrets_server.Calendar.Names.{days_of_week_initial, months_of_year}

-- A date as the page reads it: `getFullYear`, `getMonth` (from 0) and `getDate`, or their UTC forms.
pub record Day : Type 0 where
  pub full_year : ℤ
  pub month : ℕ
  pub date : ℕ

int_eq : ℤ → ℤ → Bool
int_eq (pos m) (pos n) = m == n
int_eq (negsuc m) (negsuc n) = m == n
int_eq _ _ = false

-- A `<td>`: blank, or a day with its class.
pub data Cell : Type 0 where
  nonday : Cell
  day : ℕ → String → Cell

pub record Table : Type 0 where
  pub caption : Option String × ℤ
  pub header : List (Option String)
  pub rows : List (List Cell)

-- `todayClass`, with "selected" appended.
class_of : Bool → Bool → String
class_of today chosen =
    if today
    then (if chosen then "today selected" else "today")
    else (if chosen then "selected" else "")

is_selected_month : Option Day → ℤ → ℕ → Bool
is_selected_month none year month = false
is_selected_month (some s) year month = int_eq s.full_year year && s.month + 1 == month

is_selected_date : Option Day → ℕ → Bool
is_selected_date none current_day = false
is_selected_date (some s) current_day = current_day == s.date

pub day_cell : Day → Option Day → ℕ → ℤ → ℕ → Cell
unfolding class_of is_selected_month is_selected_date int_eq
day_cell today selected month year current_day =
    let is_today =
      current_day == today.date && month == today.month + 1 && int_eq year today.full_year in
    day current_day (
      class_of is_today
        (is_selected_month selected year month && is_selected_date selected current_day))

-- The loop `for (let i = startingPos; currentDay <= days; i++)`, by the rounds left: the rows that are
-- finished and the row that is being filled.
pub draw_days : (ℕ → Cell) → ℕ → ℕ → ℕ → List (List Cell) → List Cell → List (List Cell) × List Cell
draw_days cell zero i current_day done row = (done, row)
draw_days cell (suc rounds) i current_day done row =
    let new_row = i % 7 == 0 && not (current_day == 1) in
    draw_days cell rounds (i + 1) (current_day + 1) (if new_row then done ++ row ∷ [] else done)
      (if new_row then cell current_day ∷ [] else row ++ cell current_day ∷ [])

-- `startingPos`: `new Date(year, month - 1, 1 - firstDayOfWeek).getDay()`. The day of the month may
-- be negative; seven weeks of days make it a natural number with the same weekday.
pub starting_pos : ℕ → ℕ → ℤ → ℕ
unfolding get_day
starting_pos first_day_of_week month year = get_day year (month - 1) (1 + 6 * first_day_of_week)

pub draw_rows : (ℕ → Cell) → ℕ → ℕ → List (List Cell)
unfolding draw_days
draw_rows cell start days =
    let (done, row) = draw_days cell days start 1 [] (replicate start nonday) in
    done ++ (row ++ replicate (7 - length row) nonday) ∷ []

-- `firstDayOfWeek` is the locale's, from the page.
unfoldable pub draw : ℕ → Day → ℕ → ℤ → Option Day → Table
unfolding draw_rows starting_pos day_cell get_days_in_month
draw first_day_of_week today month year selected = record {
  caption = (get_elem? months_of_year (month - 1), year);
  header =
      map (λ i. get_elem? days_of_week_initial ((i + first_day_of_week) % 7))
        (0 ∷ 1 ∷ 2 ∷ 3 ∷ 4 ∷ 5 ∷ 6 ∷ []);
  rows =
      draw_rows (day_cell today selected month year) (starting_pos first_day_of_week month year)
        (get_days_in_month month year);
}

-- A `Calendar` object; `today` is the clock's, read once by the constructor.
pub record Calendar : Type 0 where
  pub current_month : ℕ
  pub current_year : ℤ
  pub selected : Option Day

unfoldable pub create : Day → Option Day → Calendar
create today selected = record {
  current_month = today.month + 1;
  current_year = today.full_year;
  selected = selected;
}

-- Each of the methods below ends in `drawCurrent`, which draws the calendar that they return.
pub draw_current : ℕ → Day → Calendar → Table
draw_current first_day_of_week now c =
    draw first_day_of_week now c.current_month c.current_year c.selected

keep_if_missing : Option Day → Option Day → Option Day
keep_if_missing none old = old
keep_if_missing (some s) old = some s

unfoldable pub draw_date : ℕ → ℤ → Option Day → Calendar → Calendar
unfolding keep_if_missing
draw_date month year selected c = record {
  current_month = month;
  current_year = year;
  selected = keep_if_missing selected c.selected;
}

unfoldable pub draw_previous_month : Calendar → Calendar
draw_previous_month c =
    if c.current_month == 1
    then record c { current_month = 12; current_year = dec c.current_year }
    else record c { current_month = c.current_month - 1 }

unfoldable pub draw_next_month : Calendar → Calendar
draw_next_month c =
    if c.current_month == 12
    then record c { current_month = 1; current_year = inc c.current_year }
    else record c { current_month = c.current_month + 1 }

unfoldable pub draw_previous_year : Calendar → Calendar
draw_previous_year c = record c { current_year = dec c.current_year }

unfoldable pub draw_next_year : Calendar → Calendar
draw_next_year c = record c { current_year = inc c.current_year }
