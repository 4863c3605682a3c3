-- ===== src/DateFormat/RoundTrip.antt =====
-- Reading with `strptime` what `strftime` has written in the same format.
use mathlib.Core.Option
use mathlib.Core.List.{append-nil}
use agentsecrets_server.Prelude.{
  append-cons-ne-nil, ℕ, ◌+◌, ◌≡◌, refl, sym, ap, ◌∙◌, ◌≢◌, Bool, true, false, Option, none, some,
  List, [], ◌∷◌, ◌++◌, arith, ◌==◌,
}
use agentsecrets_server.Prelude.Int.{pos}
use agentsecrets_server.Text.Decimal.{decimal, value, AreDigits}
use agentsecrets_server.DateFormat.{
  Moment, two_digit, get_two_digit_month, field, strftime, is_date_separator, NumberParsing, Utc,
}

-- The directives of the formats that have a number with all its digits.
pub data Directive : Type 0 where
  day_part month_part year_part : Directive

abbrev pub letter : Directive → ℕ
letter day_part = b'd'
letter month_part = b'm'
letter year_part = b'Y'

abbrev pub percent : Directive → List ℕ
percent d = b'%' ∷ letter d ∷ []

abbrev shown : Moment → Directive → List ℕ
shown m day_part = two_digit m.date
shown m month_part = get_two_digit_month m
shown m year_part = decimal m.full_year

abbrev meant : Moment → Directive → ℕ
meant m day_part = m.date
meant m month_part = m.month + 1
meant m year_part = m.full_year

-- A text of digits, not empty, with its number.
record Prints (s : List ℕ) (n : ℕ) : Type 0 where
  digits : AreDigits s
  number : value s ≡ n
  there : s ≢ []

field-letter :
    (with_names : Bool) (m : Moment) (d : Directive) → field with_names m (letter d) ≡ shown m d
unfolding field
field-letter with_names m day_part = refl
field-letter with_names m month_part = refl
field-letter with_names m year_part = refl

strftime-percent :
    (with_names : Bool) (m : Moment) (d : Directive) (format : List ℕ)
    → strftime with_names m (b'%' ∷ letter d ∷ format) ≡ shown m d ++ strftime with_names m format
strftime-percent with_names m d format =
    unfold strftime in
    ap (λ (s : List ℕ). s ++ strftime with_names m format) (field-letter with_names m d)

strftime-separator :
    (with_names : Bool) (m : Moment) (p c : ℕ) (format : List ℕ)
    → is_date_separator p ≡ true
    → strftime with_names m (p ∷ c ∷ format) ≡ p ∷ strftime with_names m (c ∷ format)
unfolding strftime
strftime-separator with_names m p c format h = rw (not_percent, strftime)
  where
    not_percent : (p == b'%') ≡ false
    not_percent = ground arith

abbrev pub format_of : Directive → ℕ → Directive → ℕ → Directive → List ℕ
format_of a p b q c = b'%' ∷ letter a ∷ p ∷ b'%' ∷ letter b ∷ q ∷ b'%' ∷ letter c ∷ []

strftime_nil : (with_names : Bool) (m : Moment) → strftime with_names m [] ≡ []
unfolding strftime
strftime_nil with_names m = refl

strftime_end :
    (with_names : Bool) (m : Moment) (d : Directive) → strftime with_names m (percent d) ≡ shown m d
strftime_end with_names m d =
    strftime-percent with_names m d [] ∙ rw strftime_nil (append-nil (shown m d))

-- The text that `strftime` writes, and its parts.
strftime-format_of :
    (with_names : Bool) (m : Moment) (a b c : Directive) (p q : ℕ)
    → is_date_separator p ≡ true
    → is_date_separator q ≡ true
    → strftime with_names m (format_of a p b q c)
      ≡ shown m a ++ (p ∷ (shown m b ++ (q ∷ shown m c)))
strftime-format_of with_names m a b c p q hp hq =
    strftime-percent with_names m a _
    ∙ rw (
      strftime-separator with_names m p b'%' _ hp,
      strftime-percent with_names m b _,
      strftime-separator with_names m q b'%' _ hq,
      strftime_end with_names m c,
    )

pub strftime-ne-nil :
    (with_names : Bool) (m : Moment) (a b c : Directive) (p q : ℕ)
    → is_date_separator p ≡ true
    → is_date_separator q ≡ true
    → strftime with_names m (format_of a p b q c) ≢ []
strftime-ne-nil with_names m a b c p q hp hq e =
    append-cons-ne-nil (shown m a) p _ (sym (strftime-format_of with_names m a b c p q hp hq) ∙ e)

-- What a part sets.
abbrev set_part : Moment → Directive → Utc → Utc
set_part m day_part u = record u { day = some (pos m.date) }
set_part m month_part u = record u { month = some (pos m.month) }
set_part m year_part u = record u { year = some (pos m.full_year) }

module _ (host : NumberParsing) where
  abbrev unread : Utc
  unread = record { year = none; month = none; day = none }
