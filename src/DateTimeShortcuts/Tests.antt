-- ===== src/DateTimeShortcuts/Tests.antt =====
-- A page with two inputs, on a host whose time values count days in months of 32 days, and the
-- theorems on it.
use agentsecrets_server.Prelude.{
  ℕ, ◌+◌, ◌*◌, ◌/◌, ◌%◌, ◌<◌, ◌≡◌, ◌≢◌, refl, true, false, Option, none, some, List, [], ◌∷◌,
  length, arith,
}
use agentsecrets_server.Prelude.Int.{ℤ, pos, negsuc, ◌+ℤ◌, times}
use agentsecrets_server.Text.{codes}
use agentsecrets_server.Calendar.{Day}
use agentsecrets_server.DateFormat.{Moment, Utc}
use agentsecrets_server.DateFormat.Tests.{digits_only}
use agentsecrets_server.DateFormat.RoundTrip.{year_part, month_part, day_part}
use agentsecrets_server.DateTimeShortcuts.{
  timezone_offset, Page, Input, time_field, date_field, other, Dates, DateField, Setting, init,
  hidden,
}
use agentsecrets_server.DateTimeShortcuts.Offset.{timezone_offset}
use agentsecrets_server.DateTimeShortcuts.Events.{
  Event, clock_icon, now_link, calendar_icon, day_link, previous, escape, click_document, run,
}
use agentsecrets_server.DateTimeShortcuts.Invariant.{IsValid}
use agentsecrets_server.DateTimeShortcuts.Invariant.Start.{IsHidden, run-init}
use agentsecrets_server.DateTimeShortcuts.Reopen.{Format}

abbrev natural : ℤ → ℕ
natural (pos n) = n
natural (negsuc n) = 0

abbrev moment_of : ℕ → Moment
moment_of n = record {
  full_year = n / 32 / 12;
  month = n / 32 % 12;
  date = n % 32;
  day = 0;
  hours = 0;
  minutes = 0;
  seconds = 0;
  to_string = [];
  to_locale_date_string = [];
  to_locale_time_string = [];
}

month_of_lem : (n : ℕ) → n / 32 % 12 < 12
month_of_lem n = omega arith

abbrev day_of_utc : Utc → Option Day
day_of_utc u = elim u.year [
  | some (pos y) ↦ elim u.month [
    | some (pos m) ↦ elim u.day [
      | some (pos d) ↦ some (record { full_year = pos y; month = m; date = d })
      | _ ↦ none
    ]
    | _ ↦ none
  ]
  | _ ↦ none
]

abbrev host : Dates
host = record {
  numbers = digits_only;
  moment = λ t. moment_of (natural t);
  month_lem = λ t. month_of_lem (natural t);
  timezone_offset = λ t. negsuc 119;
  local_time = λ y m d h. pos ((y * 12 + m) * 32 + d);
  set_date = λ t d. t;
  utc_day = day_of_utc;
  utc_day_lem = λ y m d low high month first last. refl;
}

abbrev setting : Setting
setting = record {
  host = host;
  server_offset = some (pos 3600);
  with_names = true;
  date_format = codes "%Y-%m-%d";
  time_format = codes "%H:%M:%S";
  right_to_left = false;
  clock_hours = λ name. none;
}

abbrev inputs : List Input
inputs =
    date_field 0 "expires_0" (codes "2026-11-05")
    ∷ time_field 0 "expires_1" (codes "10:00")
    ∷ other
    ∷ []

abbrev events : List Event
events =
    clock_icon (pos 10) (pos 10) 0
    ∷ now_link (pos 700000) 0
    ∷ calendar_icon (pos 10) (pos 50) 0
    ∷ previous 0
    ∷ day_link (pos 700000) (pos 1) 0
    ∷ escape
    ∷ []

run-init_example :
    (p : Page) × (run setting events (init setting (pos 778213) inputs) ≡ some p)
    × IsValid p
    × (length p.clocks ≡ 1)
    × (length p.dates ≡ 1)
    × IsHidden (click_document p)
run-init_example =
    run-init setting (pos 778213) inputs events
      (omega arith, (omega arith, (omega arith, (omega arith, (omega arith, (tt, tt))))))

-- The browser is an hour ahead of the server.
hour_ahead : timezone_offset setting (pos 5) ≡ pos 3600
unfolding timezone_offset ◌+ℤ◌ times
hour_ahead = refl

year-month : year_part ≢ month_part
year-month e = cc

year-day : year_part ≢ day_part
year-day e = cc

month-day : month_part ≢ day_part
month-day e = cc

abbrev iso : Format
iso = record {
  first = year_part;
  second = month_part;
  third = day_part;
  one = b'-';
  two = b'-';
  first_second = year-month;
  first_third = year-day;
  second_third = month-day;
  one_separates = refl;
  two_separates = refl;
}

abbrev field : DateField
field = record {
  value = codes "2026-11-05";
  calendar = record { current_month = 11; current_year = pos 2026; selected = none };
  box = hidden;
}

abbrev page : Page
page = record { clocks = []; dates = field ∷ []; focus = none; warnings = λ parent. [] }
