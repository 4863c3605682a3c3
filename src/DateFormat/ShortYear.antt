-- ===== src/DateFormat/ShortYear.antt =====
-- core.js: the century of a year of two digits.
use mathlib.Core.Option
use agentsecrets_server.Prelude.{
  ℕ, ◌<◌, ◌+◌, ltb, leb, if◌then◌else◌, ◌≡◌, ◌≢◌, some, List, [], arith,
}
use agentsecrets_server.Prelude.Int.{pos}
use agentsecrets_server.Text.Decimal.{value, AreDigits}
use agentsecrets_server.Calendar.Dates.{date_year}
use agentsecrets_server.DateFormat.{add_100, short_year, NumberParsing}

-- A text of digits, not empty and with a value below 100, as `%y` reads it and `Date.UTC` takes it: a
-- year of the twentieth century from 69 on, of the twenty-first below.
short_year_century :
    (host : NumberParsing) (s : List ℕ)
    → s ≢ []
    → AreDigits s
    → value s < 100
    → Option.map date_year (short_year host (some s))
      ≡ some (pos (if ltb (value s) 69 then 2000 + value s else 1900 + value s))
unfolding short_year
short_year_century host s ne digits h =
    rw (host.parse_int_digits s ne digits, host.to_number_digits s ne digits) (by_value (value s) h)
  where
    by_value :
        (v : ℕ)
        → v < 100
        → Option.map date_year
            (if leb 69 v then some (pos v) else some (add_100 (date_year (pos v))))
          ≡ some (pos (if ltb v 69 then 2000 + v else 1900 + v))
    by_value v small = unfold date_year in ground arith
