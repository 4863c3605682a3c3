-- ===== src/DateTimeShortcuts/State.antt =====
-- DateTimeShortcuts.js: what the script keeps, and what it takes from the page and from the host.
use Prim.Native.String.{String}
use agentsecrets_server.Prelude.{ℕ, ◌+◌, ◌<◌, ◌≤◌, ◌≡◌, Bool, Option, some, List}
use agentsecrets_server.Prelude.Int.{ℤ, pos}
use agentsecrets_server.DateFormat.{Moment, NumberParsing, Utc}
use agentsecrets_server.Calendar.{Day, Calendar}
use agentsecrets_server.Calendar.Dates.{get_days_in_month}

-- The message that the time zones differ, with the seconds whose hours it names.
pub data Warning : Type 0 where
  ahead behind : ℕ → Warning

-- A box of the page with its document-wide listener, `dismissClockFunc[num]` or the calendar's.
pub record Popup : Type 0 where
  pub shown : Bool
  pub listening : Bool
  pub left : ℤ
  pub top : ℤ

pub record Clock : Type 0 where
  pub value : List ℕ
  pub choices : List (String × ℤ)
  pub box : Popup

pub record DateField : Type 0 where
  pub value : List ℕ
  pub calendar : Calendar
  pub box : Popup

pub data Focus : Type 0 where
  on_clock on_date : ℕ → Focus

-- `warnings` are those in the element of the number, the parent of some inputs.
pub record Page : Type 0 where
  pub clocks : List Clock
  pub dates : List DateField
  pub focus : Option Focus
  pub warnings : ℕ → List Warning

-- The `Date` objects of the host: a time value in milliseconds, what the getters show of it in the
-- local time zone, `getTimezoneOffset`, `new Date(year, month, date, hours, 0, 0, 0)`, `setDate`, and
-- what the UTC getters show of the date that `strptime` makes, which is `none` where that is not a
-- valid one; its full year is the one given.
pub record Dates : Type 0 where
  pub numbers : NumberParsing
  pub moment : ℤ → Moment
  pub month_lem : (t : ℤ) → (moment t).month < 12
  pub timezone_offset : ℤ → ℤ
  pub local_time : ℕ → ℕ → ℕ → ℤ → ℤ
  pub set_date : ℤ → ℤ → ℤ
  pub utc_day : Utc → Option Day
  pub utc_day_lem :
      (y m d : ℕ)
      → 100 ≤ y
      → y < 10000
      → m < 12
      → 1 ≤ d
      → d ≤ get_days_in_month (m + 1) (pos y)
      → utc_day (record { year = some (pos y); month = some (pos m); day = some (pos d) })
        ≡ some (record { full_year = pos y; month = m; date = d })

-- What the page is loaded with: the attribute `data-admin-utc-offset` as a number (`none` where it is
-- missing or empty), whether calendar.js has the names, the first formats of the locale, the layout's
-- direction, and the `clockHours` for the name of an input, if there are any.
pub record Setting : Type 0 where
  pub host : Dates
  pub server_offset : Option ℤ
  pub with_names : Bool
  pub date_format : List ℕ
  pub time_format : List ℕ
  pub right_to_left : Bool
  pub clock_hours : String → Option (List (String × ℤ))
