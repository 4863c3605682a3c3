-- ===== src/DateFormat/Tests.antt =====
-- Dates that are written and read.
use agentsecrets_server.Prelude.{
  ℕ, ◌≡◌, refl, Bool, true, ◌&&◌, Option, none, some, List, [], ◌∷◌, arith, if◌then◌else◌,
}
use agentsecrets_server.Prelude.Int.{ℤ, pos}
use agentsecrets_server.Text.{codes, is_digit}
use agentsecrets_server.Text.Decimal.{decimal, value, AreDigits}
use agentsecrets_server.DateFormat.{Moment, strftime, NumberParsing, DigitsLaw}

all_digits : List ℕ → Bool
all_digits [] = true
all_digits (c ∷ s) = is_digit c && all_digits s

all_digits-AreDigits : (s : List ℕ) → AreDigits s → all_digits s ≡ true
unfolding all_digits
all_digits-AreDigits [] h = refl
all_digits-AreDigits (c ∷ s) h = ground (arith, h.0, all_digits-AreDigits s h.1)

pub parse_digits : List ℕ → Option ℤ
parse_digits s = if all_digits s then some (pos (value s)) else none

pub parse_digits_law : DigitsLaw parse_digits
unfolding parse_digits
parse_digits_law s ne digits = rw (parse_digits, all_digits-AreDigits s digits)

abbrev pub digits_only : NumberParsing
digits_only = record {
  to_number = parse_digits;
  parse_int = parse_digits;
  to_number_digits = parse_digits_law;
  parse_int_digits = parse_digits_law;
}

abbrev moment : Moment
moment = record {
  full_year = 2026;
  month = 10;
  date = 5;
  day = 4;
  hours = 12;
  minutes = 7;
  seconds = 0;
  to_string = [];
  to_locale_date_string = [];
  to_locale_time_string = [];
}

strftime_test :
    strftime true moment (codes "%a %d.%m.%y %I:%M %p%") ≡ codes "Thur 05.11.26 12:07 PMundefined"
unfolding strftime decimal
strftime_test = refl
