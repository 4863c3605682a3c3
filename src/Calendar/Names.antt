-- ===== src/Calendar/Names.antt =====
-- The names of `CalendarNamespace`, before `gettext` and `pgettext` translate them.
use Prim.Native.String.{String}
use agentsecrets_server.Prelude.{List, [], ◌∷◌}

abbrev pub months_of_year : List String
months_of_year =
    "January" ∷ "February" ∷ "March" ∷ "April" ∷ "May" ∷ "June" ∷ "July" ∷ "August" ∷ "September"
    ∷ "October" ∷ "November" ∷ "December" ∷ []

abbrev pub months_of_year_abbrev : List String
months_of_year_abbrev =
    "Jan" ∷ "Feb" ∷ "Mar" ∷ "Apr" ∷ "May" ∷ "Jun" ∷ "Jul" ∷ "Aug" ∷ "Sep" ∷ "Oct" ∷ "Nov" ∷ "Dec"
    ∷ []

abbrev pub days_of_week : List String
days_of_week =
    "Sunday" ∷ "Monday" ∷ "Tuesday" ∷ "Wednesday" ∷ "Thursday" ∷ "Friday" ∷ "Saturday" ∷ []

abbrev pub days_of_week_abbrev : List String
days_of_week_abbrev = "Sun" ∷ "Mon" ∷ "Tue" ∷ "Wed" ∷ "Thur" ∷ "Fri" ∷ "Sat" ∷ []

abbrev pub days_of_week_initial : List String
days_of_week_initial = "S" ∷ "M" ∷ "T" ∷ "W" ∷ "T" ∷ "F" ∷ "S" ∷ []
