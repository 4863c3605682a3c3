-- ===== src/DateTimeShortcuts.antt =====
-- staticfiles/admin/js/admin/DateTimeShortcuts.js: the clock and calendar boxes beside the inputs for
-- times and dates. An index that no box has makes the script throw: `none`.
mod State
pub mod Offset
mod Tests
pub mod Reopen
pub mod Events
pub mod Invariant
use Prim.Native.String.{String}
pub use State.*
unfoldable pub use Offset.{now, timezone_offset, warnings_with}
use agentsecrets_server.Prelude.{
  ◌==◌, ℕ, zero, suc, ◌+◌, ◌-◌, Bool, true, false, ◌&&◌, ◌||◌, Option, none, some, List, [], ◌∷◌,
  ◌++◌, leb, if◌then◌else◌, ◌>>=◌,
}
use agentsecrets_server.Prelude.Int.{ℤ, pos, negsuc, ◌+ℤ◌, neg, max_zero}
use agentsecrets_server.Text.{is_digit}
use agentsecrets_server.Text.Decimal.{decimal}
use agentsecrets_server.DateFormat.{Moment, strftime, strptime}
use agentsecrets_server.Calendar.{
  Day, Calendar, create, draw_date, draw_previous_month, draw_next_month,
}
use agentsecrets_server.Calendar.Dates.{get_days_in_month}

-- `object[num]` of a method that changes it.
unfoldable pub modify {ℓ} : {A : Type ℓ} → (A → A) → ℕ → List A → Option (List A)
modify f i [] = none
modify f zero (x ∷ xs) = some (f x ∷ xs)
modify f (suc i) (x ∷ xs) = modify f i xs >>= λ ys. some (x ∷ ys)

abbrev pub hide : Popup → Popup
hide b = record b { shown = false; listening = false }

-- The place of a box: beside the link, which stands at `x` and `y`.
abbrev pub place : Bool → ℤ → ℤ → ℤ → ℤ → Popup
place right_to_left back up x y = record {
  shown = true;
  listening = true;
  left = if right_to_left then x +ℤ neg back else x +ℤ pos 17;
  top = max_zero (y +ℤ neg up);
}

abbrev pub default_hours : List (String × ℤ)
default_hours =
    ("Now", negsuc 0)
    ∷ ("Midnight", pos 0)
    ∷ ("6 a.m.", pos 6)
    ∷ ("Noon", pos 12)
    ∷ ("6 p.m.", pos 18)
    ∷ []

abbrev pub or_default : Option (List (String × ℤ)) → List (String × ℤ)
or_default none = default_hours
or_default (some hours) = hours

abbrev pub hidden : Popup
hidden = record { shown = false; listening = false; left = pos 0; top = pos 0 }

unfoldable pub dismiss_clock : ℕ → Page → Option Page
unfolding modify
dismiss_clock num p = do
  clocks ← modify (λ (c : Clock). record c { box = hide c.box }) num p.clocks
  some (record p { clocks = clocks })

unfoldable pub dismiss_calendar : ℕ → Page → Option Page
unfolding modify
dismiss_calendar num p = do
  dates ← modify (λ (f : DateField). record f { box = hide f.box }) num p.dates
  some (record p { dates = dates })

unfoldable pub open_clock : Setting → ℤ → ℤ → ℕ → Page → Option Page
unfolding modify
open_clock g x y num p = do
  clocks ←
      modify (λ (c : Clock). record c { box = place g.right_to_left (pos 110) (pos 30) x y }) num
        p.clocks
  some (record p { clocks = clocks })

-- The time that a quick link means.
unfoldable pub quick_time : Setting → ℤ → ℤ → ℤ
unfolding now
quick_time g t (negsuc zero) = now g t
quick_time g t val = g.host.local_time 1970 1 1 val

unfoldable pub handle_clock_quicklink : Setting → ℤ → ℤ → ℕ → Page → Option Page
unfolding modify quick_time dismiss_clock
handle_clock_quicklink g t val num p = do
  let written = strftime g.with_names (g.host.moment (quick_time g t val)) g.time_format
  clocks ← modify (λ (c : Clock). record c { value = written }) num p.clocks
  dismiss_clock num (record p { clocks = clocks; focus = some (on_clock num) })

-- `/\d{4}/.test(text)`
starts_with_digits : ℕ → List ℕ → Bool
starts_with_digits zero s = true
starts_with_digits (suc n) [] = false
starts_with_digits (suc n) (c ∷ s) = is_digit c && starts_with_digits n s

pub has_four_digits : List ℕ → Bool
unfolding starts_with_digits
has_four_digits [] = false
has_four_digits (c ∷ s) = starts_with_digits 4 (c ∷ s) || has_four_digits s

-- `year.toString()`
abbrev pub year_text : ℤ → List ℕ
year_text (pos n) = decimal n
year_text (negsuc n) = b'-' ∷ decimal (n + 1)

-- The calendar of the input's date, where the value is one.
pub draw_selected : Option Day → Calendar → Calendar
unfolding has_four_digits draw_date
draw_selected none c = c
draw_selected (some s) c =
    if has_four_digits (year_text s.full_year) && leb 1 (s.month + 1) && leb (s.month + 1) 12
    then draw_date (s.month + 1) s.full_year (some s) c
    else c

pub draw_value : Setting → List ℕ → Calendar → Calendar
unfolding draw_selected
draw_value g [] c = c
draw_value g (d ∷ value) c =
    draw_selected (g.host.utc_day (strptime g.host.numbers (d ∷ value) g.date_format)) c

abbrev pub opened : Setting → ℤ → ℤ → DateField → DateField
opened g x y f = record f {
  calendar = draw_value g f.value f.calendar;
  box = place g.right_to_left (pos 180) (pos 75) x y;
}

unfoldable pub open_calendar : Setting → ℤ → ℤ → ℕ → Page → Option Page
unfolding modify draw_value
open_calendar g x y num p = do
  dates ← modify (opened g x y) num p.dates
  some (record p { dates = dates })

unfoldable pub draw_prev : ℕ → Page → Option Page
unfolding modify draw_previous_month
draw_prev num p = do
  dates ←
      modify (λ (f : DateField). record f { calendar = draw_previous_month f.calendar }) num p.dates
  some (record p { dates = dates })

unfoldable pub draw_next : ℕ → Page → Option Page
unfolding modify draw_next_month
draw_next num p = do
  dates ← modify (λ (f : DateField). record f { calendar = draw_next_month f.calendar }) num p.dates
  some (record p { dates = dates })

abbrev pub picked : List ℕ → DateField → DateField
picked written f = record f { value = written; box = record f.box { shown = false } }

-- The function that `handleCalendarCallback` returns, for the day `d` of the month that a calendar
-- shows, in a year from 0 on. It hides the box and leaves the listener.
unfoldable pub handle_calendar_callback : Setting → ℕ → ℕ → ℕ → ℕ → Page → Option Page
unfolding modify
handle_calendar_callback g y m d num p = do
  let day = g.host.moment (g.host.local_time y (m - 1) d (pos 0))
  dates ← modify (picked (strftime g.with_names day g.date_format)) num p.dates
  some (record p { dates = dates; focus = some (on_date num) })

unfoldable pub handle_calendar_quick_link : Setting → ℤ → ℤ → ℕ → Page → Option Page
unfolding modify now dismiss_calendar
handle_calendar_quick_link g t offset num p = do
  let today = now g t
  let day = g.host.set_date today (pos (g.host.moment today).date +ℤ offset)
  let written = strftime g.with_names (g.host.moment day) g.date_format
  dates ← modify (λ (f : DateField). record f { value = written }) num p.dates
  dismiss_calendar num (record p { dates = dates; focus = some (on_date num) })

-- `today` as the constructor of a calendar reads it.
abbrev pub day_of_moment : Moment → Day
day_of_moment m = record { full_year = pos m.full_year; month = m.month; date = m.date }

unfoldable pub add_clock : Setting → String → List ℕ → Page → Page
add_clock g name value p = record p {
  clocks =
      p.clocks
      ++ record { value = value; choices = or_default (g.clock_hours name); box = hidden } ∷ [];
}

unfoldable pub add_calendar : Setting → ℤ → List ℕ → Page → Page
unfolding create
add_calendar g t value p = record p {
  dates =
      p.dates
      ++ record {
        value = value;
        calendar = create (day_of_moment (g.host.moment t)) none;
        box = hidden;
      }
        ∷ [];
}

-- An `<input>`: of type text with a class of the two, with its parent, its name and its value, or
-- another.
pub data Input : Type 0 where
  time_field date_field : ℕ → String → List ℕ → Input
  other : Input

-- `addTimezoneWarning` for an input of the parent.
unfoldable pub add_timezone_warning : ℤ → ℕ → Page → Page
unfolding warnings_with
add_timezone_warning offset parent p = record p {
  warnings = λ other_parent.
      if parent == other_parent
      then warnings_with offset (p.warnings parent)
      else p.warnings other_parent;
}

-- The loop of `init`, at the time `t`.
unfoldable pub add_inputs : Setting → ℤ → ℤ → List Input → Page → Page
unfolding add_clock add_calendar add_timezone_warning
add_inputs g t offset [] p = p
add_inputs g t offset (time_field parent name value ∷ inputs) p =
    add_inputs g t offset inputs (add_timezone_warning offset parent (add_clock g name value p))
add_inputs g t offset (date_field parent name value ∷ inputs) p =
    add_inputs g t offset inputs (add_timezone_warning offset parent (add_calendar g t value p))
add_inputs g t offset (other ∷ inputs) p = add_inputs g t offset inputs p

abbrev pub empty_page : Page
empty_page = record { clocks = []; dates = []; focus = none; warnings = λ parent. [] }

unfoldable pub init : Setting → ℤ → List Input → Page
unfolding add_inputs timezone_offset
init g t inputs = add_inputs g t (timezone_offset g t) inputs empty_page
