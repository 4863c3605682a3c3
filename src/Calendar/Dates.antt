-- ===== src/Calendar/Dates.antt =====
-- The arithmetic of dates: `isLeapYear` and `getDaysInMonth` of calendar.js, and the day numbers of
-- JavaScript's `Date`, from which `getDay` comes.
use agentsecrets_server.Prelude.{
  ==_iff, inl, inr, Bool-cases, ◌<◌, ℕ, suc, ◌+◌, ◌-◌, ◌*◌, ◌/◌, ◌%◌, ◌≡◌, refl, Bool, not, ◌&&◌,
  ◌||◌, arith, ltb, ◌==◌, if◌then◌else◌,
}
use agentsecrets_server.Prelude.Int.{ℤ, pos, negsuc}

abbrev pub magnitude : ℤ → ℕ
magnitude (pos n) = n
magnitude (negsuc n) = suc n

-- `year % k === 0`; the sign of a remainder does not matter to this test.
abbrev pub divides : ℕ → ℤ → Bool
divides k year = magnitude year % k == 0

unfoldable pub is_leap_year : ℤ → Bool
is_leap_year year = (divides 4 year && not (divides 100 year)) || divides 400 year

unfoldable pub get_days_in_month : ℕ → ℤ → ℕ
unfolding is_leap_year
get_days_in_month month year =
    if month == 1
      || month == 3
      || month == 5
      || month == 7
      || month == 8
      || month == 10
      || month == 12
    then 31
    else if month == 4 || month == 6 || month == 9 || month == 11
    then 30
    else if month == 2 && is_leap_year year
    then 29
    else 28

-- `Date`: the days of the proleptic Gregorian calendar before a year, counted from the year 0.
pub days_before_year : ℕ → ℕ
days_before_year y = 365 * y + (y + 3) / 4 - (y + 99) / 100 + (y + 399) / 400

-- The days of a year before a month, months from 0.
pub days_before_month : Bool → ℕ → ℕ
days_before_month leap month =
    let shift : ℕ = if leap then 1 else 0 in
    if month == 0
    then 0
    else if month == 1
    then 31
    else if month == 2
    then 59 + shift
    else if month == 3
    then 90 + shift
    else if month == 4
    then 120 + shift
    else if month == 5
    then 151 + shift
    else if month == 6
    then 181 + shift
    else if month == 7
    then 212 + shift
    else if month == 8
    then 243 + shift
    else if month == 9
    then 273 + shift
    else if month == 10
    then 304 + shift
    else 334 + shift

-- The calendar repeats after 400 years, which are whole weeks: the year within its cycle.
abbrev pub cycle_year : ℤ → ℕ
cycle_year (pos n) = n % 400
cycle_year (negsuc n) = 399 - n % 400

-- The weekday, from 0 for Sunday, of day `day` of month `month` (from 0 to 11), also where `day` is 0
-- or past the end of the month. 1 January of the year 0 is a Saturday.
pub gregorian_day : ℤ → ℕ → ℕ → ℕ
unfolding days_before_year days_before_month is_leap_year
gregorian_day year month day =
    (days_before_year (cycle_year year) + days_before_month (is_leap_year year) month + 5 + day) % 7

-- `new Date(year, …)` takes a year from 0 to 99 for one of the twentieth century.
unfoldable pub date_year : ℤ → ℤ
date_year (pos n) = if ltb n 100 then pos (1900 + n) else pos n
date_year (negsuc n) = negsuc n

-- `new Date(year, month, day).getDay()`, for a month from 0 to 11 and a day within `Date`'s range, out
-- of which the getter gives NaN.
unfoldable pub get_day : ℤ → ℕ → ℕ → ℕ
unfolding gregorian_day date_year
get_day year month day = gregorian_day (date_year year) month day

-- 25 November 2026 is a Wednesday, 1 March 1900 a Thursday, 29 February 2000 a Tuesday.
known_days :
    (get_day (pos 2026) 10 25 ≡ 3) × (get_day (pos 1900) 2 1 ≡ 4) × (get_day (pos 2000) 1 29 ≡ 2)
unfolding get_day
known_days = (refl, refl, refl)

leap_shift : ℤ → ℕ
leap_shift year = if is_leap_year year then 1 else 0

pub days_before_year-suc :
    (y : ℕ)
    → days_before_year (suc y) ≡ days_before_year y + 365 + (if is_leap_year (pos y) then 1 else 0)
unfolding days_before_year is_leap_year
days_before_year-suc y = ground arith

-- The number of a day, from the years on: `Date` counts in these.
pub day_number : ℕ → ℕ → ℕ → ℕ
unfolding days_before_year days_before_month is_leap_year
day_number y month day = days_before_year y + days_before_month (is_leap_year (pos y)) month + day

days_before_month-next :
    (leap : ℤ) (m : ℕ)
    → m < 11
    → days_before_month (is_leap_year leap) m + get_days_in_month (m + 1) leap
      ≡ days_before_month (is_leap_year leap) (m + 1)
unfolding days_before_month get_days_in_month
days_before_month-next year m h = ground arith

days_before_year-cycle : (y : ℕ) → days_before_year (y % 400) % 7 ≡ days_before_year y % 7
unfolding days_before_year
days_before_year-cycle y = omega arith

-- The weekday of `Date` is the day's number, up to whole weeks.
pub gregorian_day-day_number :
    (y month day : ℕ) → gregorian_day (pos y) month day ≡ (day_number y month day + 5) % 7
gregorian_day-day_number y month day =
    unfold gregorian_day day_number in omega (arith, days_before_year-cycle y)

december : (leap : Bool) → days_before_month leap 11 ≡ 334 + (if leap then 1 else 0)
unfolding days_before_month
december leap = refl

january : (leap : Bool) → days_before_month leap 0 ≡ 0
unfolding days_before_month
january leap = refl

december_days : (year : ℤ) → get_days_in_month 12 year ≡ 31
unfolding get_days_in_month
december_days year = refl

unfold_day_number :
    (y month day : ℕ)
    → day_number y month day
      ≡ days_before_year y + days_before_month (is_leap_year (pos y)) month + day
unfolding day_number
unfold_day_number y month day = refl

-- `getDaysInMonth` is the distance of the first days of two months in `Date`'s own count, across the
-- end of the year too. Months are from 1 to 12 on one side, from 0 to 11 on the other.
pub get_days_in_month_exact :
    (y m : ℕ)
    → m < 12
    → day_number y m 1 + get_days_in_month (m + 1) (pos y)
      ≡ (if m == 11 then day_number (suc y) 0 1 else day_number y (m + 1) 1)
get_days_in_month_exact y m h = elim (Bool-cases (m == 11)) [
  | inl last ↦ rw ((==_iff m 11).0 last) (
      omega (
        arith,
        december (is_leap_year (pos y)),
        december_days (pos y),
        january (is_leap_year (pos (suc y))),
        days_before_year-suc y,
        unfold_day_number y 11 1,
        unfold_day_number (suc y) 0 1,
      ))
  | inr other ↦ rw other (
      omega (
        arith,
        days_before_month-next (pos y) m (ground arith),
        unfold_day_number y m 1,
        unfold_day_number y (m + 1) 1,
      ))
]

-- A later day of the month is that many weekdays on.
pub get_day_linear :
    (year : ℤ) (month d : ℕ) → get_day year month d ≡ (get_day year month 0 + d) % 7
unfolding get_day
get_day_linear year month d = omega arith

pub get_day-lt : (year : ℤ) (month d : ℕ) → get_day year month d < 7
unfolding get_day
get_day-lt year month d = omega arith
