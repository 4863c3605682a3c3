-- ===== src/DateTimeShortcuts/Reopen.antt =====
-- A day picked in a calendar, and the calendar opened again.
use mathlib.Core.Option
use agentsecrets_server.Prelude.{ℕ, ◌+◌, ◌≡◌, ◌≢◌, true, Option, some, List}
use agentsecrets_server.Prelude.Int.{pos}
use agentsecrets_server.Calendar.{Calendar}
use agentsecrets_server.DateFormat.{is_date_separator}
use agentsecrets_server.DateFormat.RoundTrip.{Directive, format_of}
use agentsecrets_server.DateTimeShortcuts.{Dates}

-- The local time zone has the day: `new Date(y, m, d)` is on it.
pub record HasDay (host : Dates) (y m d : ℕ) : Type 0 where
  pub year_same : (host.moment (host.local_time y m d (pos 0))).full_year ≡ y
  pub month_same : (host.moment (host.local_time y m d (pos 0))).month ≡ m
  pub date_same : (host.moment (host.local_time y m d (pos 0))).date ≡ d

-- The calendar that shows a day as selected.
abbrev pub showing : ℕ → ℕ → ℕ → Calendar
showing y m d = record {
  current_month = m + 1;
  current_year = pos y;
  selected = some (record { full_year = pos y; month = m; date = d });
}

-- Three directives in any order between separators, as the first format of a locale has them.
pub record Format : Type 0 where
  pub first : Directive
  pub second : Directive
  pub third : Directive
  pub one : ℕ
  pub two : ℕ
  pub first_second : first ≢ second
  pub first_third : first ≢ third
  pub second_third : second ≢ third
  pub one_separates : is_date_separator one ≡ true
  pub two_separates : is_date_separator two ≡ true

abbrev pub text_of : Format → List ℕ
text_of f = format_of f.first f.one f.second f.two f.third
