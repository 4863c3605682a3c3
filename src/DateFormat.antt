-- ===== src/DateFormat.antt =====
-- staticfiles/admin/js/core.js: the getters that the script adds to `Date`, `strftime`, and
-- `strptime`, which the script adds to `String`.
pub mod Tests
pub mod RoundTrip
pub mod Elements
pub mod ShortYear
use mathlib.Core.Option
use agentsecrets_server.Prelude.{
  ℕ, ◌+◌, ◌-◌, ◌%◌, ◌≡◌, ◌≢◌, Bool, true, false, ◌||◌, Option, none, some, List, [], ◌∷◌, ◌++◌, map,
  ltb, leb, ◌==◌, if◌then◌else◌, get_elem?, take, drop,
}
use Prim.Native.String.{String}
use agentsecrets_server.Prelude.Int.{ℤ, pos, negsuc, dec}
use agentsecrets_server.Text.{codes}
use agentsecrets_server.Text.Search.{cons_first}
use agentsecrets_server.Text.Decimal.{decimal, value, AreDigits}
use agentsecrets_server.Calendar.Names.{
  months_of_year, months_of_year_abbrev, days_of_week, days_of_week_abbrev,
}
use agentsecrets_server.Calendar.Dates.{date_year}

-- A `Date` as its getters show it, in a year from 0 on; the three texts are the host's.
pub record Moment : Type 0 where
  pub full_year : ℕ
  pub month : ℕ
  pub date : ℕ
  pub day : ℕ
  pub hours : ℕ
  pub minutes : ℕ
  pub seconds : ℕ
  pub to_string : List ℕ
  pub to_locale_date_string : List ℕ
  pub to_locale_time_string : List ℕ

pub get_twelve_hours : Moment → ℕ
get_twelve_hours m = if m.hours % 12 == 0 then 12 else m.hours % 12

-- The getters `getTwoDigit…`, as they read when they are appended to a text.
pub two_digit : ℕ → List ℕ
two_digit n = if ltb n 10 then b'0' ∷ decimal n else decimal n

pub get_two_digit_month : Moment → List ℕ
get_two_digit_month m =
    if ltb m.month 9 then b'0' ∷ decimal (m.month + 1) else decimal (m.month + 1)

-- `String(undefined)` is what is appended for a missing value.
abbrev pub undefined : List ℕ
undefined = codes "undefined"

abbrev pub name_at : List String → ℕ → List ℕ
name_at names i = elim (get_elem? names i) [ none ↦ undefined | some name ↦ codes name ]

-- `with_names` says whether calendar.js, with its names, is loaded.
pub abbrev_day_name : Bool → Moment → List ℕ
abbrev_day_name with_names m =
    if with_names then name_at days_of_week_abbrev m.day else b'0' ∷ decimal m.day

pub full_day_name : Bool → Moment → List ℕ
full_day_name with_names m = if with_names then name_at days_of_week m.day else b'0' ∷ decimal m.day

pub abbrev_month_name : Bool → Moment → List ℕ
unfolding get_two_digit_month
abbrev_month_name with_names m =
    if with_names then name_at months_of_year_abbrev m.month else get_two_digit_month m

pub full_month_name : Bool → Moment → List ℕ
unfolding get_two_digit_month
full_month_name with_names m =
    if with_names then name_at months_of_year m.month else get_two_digit_month m

-- `fields[c]`
pub field : Bool → Moment → ℕ → List ℕ
unfolding abbrev_day_name full_day_name abbrev_month_name full_month_name two_digit
    get_two_digit_month get_twelve_hours
field with_names m c =
    if c == b'a'
    then abbrev_day_name with_names m
    else if c == b'A'
    then full_day_name with_names m
    else if c == b'b'
    then abbrev_month_name with_names m
    else if c == b'B'
    then full_month_name with_names m
    else if c == b'c'
    then m.to_string
    else if c == b'd'
    then two_digit m.date
    else if c == b'H'
    then two_digit m.hours
    else if c == b'I'
    then two_digit (get_twelve_hours m)
    else if c == b'm'
    then get_two_digit_month m
    else if c == b'M'
    then two_digit m.minutes
    else if c == b'p'
    then (if leb 12 m.hours then codes "PM" else codes "AM")
    else if c == b'S'
    then two_digit m.seconds
    else if c == b'w'
    then b'0' ∷ decimal m.day
    else if c == b'x'
    then m.to_locale_date_string
    else if c == b'X'
    then m.to_locale_time_string
    else if c == b'y'
    then take 4 (drop 2 (decimal m.full_year))
    else if c == b'Y'
    then decimal m.full_year
    else if c == b'%'
    then b'%' ∷ []
    else undefined

-- The `while` loop over the format; a `%` at its end has no field.
unfoldable pub strftime : Bool → Moment → List ℕ → List ℕ
unfolding field
strftime with_names m [] = []
strftime with_names m (c ∷ []) = if c == b'%' then undefined else c ∷ []
strftime with_names m (c ∷ d ∷ format) = elim (c == b'%') [
  | true ↦ field with_names m d ++ strftime with_names m format
  | false ↦ c ∷ strftime with_names m (d ∷ format)
]

-- The class `[.\-/]`.
abbrev pub is_date_separator : ℕ → Bool
is_date_separator c = c == b'.' || c == b'-' || c == b'/'

unfoldable pub split_date : List ℕ → List (List ℕ)
split_date [] = [] ∷ []
split_date (c ∷ s) =
    let rest = split_date s in if is_date_separator c then [] ∷ rest else cons_first c rest

-- A string of digits stands for its decimal value.
abbrev pub DigitsLaw : (List ℕ → Option ℤ) → Type 0
DigitsLaw f = (s : List ℕ) → s ≢ [] → AreDigits s → f s ≡ some (pos (value s))

-- Conversion of a string to a number, as arithmetic does it and as `parseInt(s, 10)` does it: the
-- host's, with what the language says of strings of digits. `none` is a result that is not finite.
pub record NumberParsing : Type 0 where
  pub to_number : List ℕ → Option ℤ
  pub parse_int : List ℕ → Option ℤ
  pub to_number_digits : DigitsLaw to_number
  pub parse_int_digits : DigitsLaw parse_int

-- The arguments of `Date.UTC`, and the date that it makes of them: its full year, and the month and day
-- before those out of range are carried over, which is left to the host.
pub record Utc : Type 0 where
  pub year : Option ℤ
  pub month : Option ℤ
  pub day : Option ℤ

abbrev pub at_least_69 : Option ℤ → Bool
at_least_69 (some (pos n)) = leb 69 n
at_least_69 _ = false

abbrev pub add_100 : ℤ → ℤ
add_100 (pos n) = pos (n + 100)
add_100 (negsuc n) = if ltb n 100 then pos (99 - n) else negsuc (n - 100)

module _ (host : NumberParsing) where
  open host use {to_number, parse_int}

  pub number_of : Option (List ℕ) → Option ℤ
  number_of none = none
  number_of (some s) = to_number s

  -- The year of a two-digit year.
  pub short_year : Option (List ℕ) → Option ℤ
  unfolding number_of date_year
  short_year none = none
  short_year (some s) =
      if at_least_69 (parse_int s)
      then to_number s
      else Option.map (λ y. add_100 (date_year y)) (to_number s)

  -- One round of the loop; `part` is `date[i]`, which may be missing.
  pub read_part : List ℕ → Option (List ℕ) → Utc → Utc
  unfolding number_of short_year
  read_part (c ∷ d ∷ []) part u =
      if c == b'%'
      then (if d == b'd'
          then record u { day = number_of part }
          else if d == b'm'
          then record u { month = Option.map dec (number_of part) }
          else if d == b'Y'
          then record u { year = number_of part }
          else if d == b'y'
          then record u { year = short_year part }
          else u)
      else u
  read_part _ part u = u

  pub read_parts : List (List ℕ) → List (List ℕ) → Utc → Utc
  read_parts [] parts u = u
  read_parts (f ∷ fs) [] u = read_parts fs [] (read_part f none u)
  read_parts (f ∷ fs) (p ∷ parts) u = read_parts fs parts (read_part f (some p) u)

  -- `new Date(Date.UTC(year, month, day))`: a year from 0 to 99 is one of the twentieth century.
  unfoldable pub strptime : List ℕ → List ℕ → Utc
  unfolding read_parts date_year
  strptime s format =
      let read : Utc =
        read_parts (split_date format) (split_date s)
          (record { year = none; month = none; day = none }) in
      record read { year = Option.map date_year read.year }
