-- ===== src/Calendar/Grid/Weekdays.antt =====
-- Each day stands in the column of its weekday.
use native.Mathlib.Nat.{suc-add, zero-add}
use mathlib.Core.Option.{some-injective}
use mathlib.Core.Path.{subst}
use agentsecrets_server.Calendar.Names.{days_of_week_initial}
use agentsecrets_server.Prelude.{
  ℕ, zero, suc, ◌+◌, ◌-◌, ◌*◌, ◌%◌, ◌<◌, ◌≡◌, refl, sym, ap, ◌∙◌, Option, none, some, List, [], ◌∷◌,
  ◌++◌, arith, length, get_elem?, replicate, All, map, ◌≤◌,
}
use agentsecrets_server.Prelude.Int.{ℤ, pos, negsuc}
use agentsecrets_server.Calendar.{Cell, nonday, day, Day, day_cell, starting_pos, draw}
use agentsecrets_server.Calendar.Dates.{get_day-lt, get_day_linear, get_days_in_month, get_day}
use agentsecrets_server.Calendar.Grid.{cells_of, days_from, IsWeek, IsMonth, draw_rows-IsMonth}

-- The number in a cell; blanks have none.
abbrev pub day_of : Cell → Option ℕ
day_of nonday = none
day_of (day d _) = some d

get_elem?-append_left :
    (xs ys : List Cell) (i : ℕ) {c : Cell}
    → get_elem? xs i ≡ some c
    → get_elem? (xs ++ ys) i ≡ some c
get_elem?-append_left [] ys i h = cc
get_elem?-append_left (x ∷ xs) ys zero h = h
get_elem?-append_left (x ∷ xs) ys (suc i) h = get_elem?-append_left xs ys i h

get_elem?-append_right :
    (xs ys : List Cell) (i : ℕ) → get_elem? (xs ++ ys) (length xs + i) ≡ get_elem? ys i
get_elem?-append_right [] ys i = rw zero-add
get_elem?-append_right (x ∷ xs) ys i = rw suc-add (get_elem?-append_right xs ys i)

week_after :
    (r c : ℕ) (first : List Cell) → IsWeek first → 7 * suc r + c ≡ length first + (7 * r + c)
week_after r c first h = omega arith

-- A cell of a table of weeks, by row and column, among the cells row after row.
cell_position :
    (rows : List (List Cell)) (r c : ℕ) {row : List Cell} {x : Cell}
    → All IsWeek rows
    → get_elem? rows r ≡ some row
    → get_elem? row c ≡ some x
    → get_elem? (cells_of rows) (7 * r + c) ≡ some x
unfolding cells_of
cell_position [] r c w h k = cc
cell_position (first ∷ rows) zero c {row} {x} w h k =
    rw (zero-add c)
      (get_elem?-append_left first (cells_of rows) c (rw (← some-injective _ _ h) at k))
cell_position (first ∷ rows) (suc r) c w h k =
    ap (get_elem? (first ++ cells_of rows)) (week_after r c first w.0)
    ∙ get_elem?-append_right first (cells_of rows) (7 * r + c)
    ∙ cell_position rows r c w.1 h k

get_elem?-lt : {A : Type 0} (xs : List A) (i : ℕ) {x : A} → get_elem? xs i ≡ some x → i < length xs
get_elem?-lt [] i h = cc
get_elem?-lt (x ∷ xs) zero h = omega arith
get_elem?-lt (x ∷ xs) (suc i) h = omega (arith, get_elem?-lt xs i h)

All-at :
    {A : Type 0} (P : A → Type 0) (xs : List A) (i : ℕ) {x : A}
    → All P xs
    → get_elem? xs i ≡ some x
    → P x
All-at P [] i w h = cc
All-at P (x ∷ xs) zero w h = subst P (some-injective _ _ h) w.0
All-at P (x ∷ xs) (suc i) w h = All-at P xs i w.1 h

get_elem?-map_seven :
    {A : Type 0} (f : ℕ → A) (c : ℕ)
    → c < 7
    → get_elem? (map f (0 ∷ 1 ∷ 2 ∷ 3 ∷ 4 ∷ 5 ∷ 6 ∷ [])) c ≡ some (f c)
get_elem?-map_seven f zero h = refl
get_elem?-map_seven f (suc zero) h = refl
get_elem?-map_seven f (suc (suc zero)) h = refl
get_elem?-map_seven f (suc (suc (suc zero))) h = refl
get_elem?-map_seven f (suc (suc (suc (suc zero)))) h = refl
get_elem?-map_seven f (suc (suc (suc (suc (suc zero))))) h = refl
get_elem?-map_seven f (suc (suc (suc (suc (suc (suc zero)))))) h = refl
get_elem?-map_seven f (suc (suc (suc (suc (suc (suc (suc c))))))) h = absurd (omega arith)

all_blank : (n i : ℕ) {x : Cell} → get_elem? (replicate n nonday) i ≡ some x → x ≡ nonday
all_blank zero i h = cc
all_blank (suc n) zero h = cc
all_blank (suc n) (suc i) h = all_blank n i h

-- Where a number stands among blanks, days and blanks.
module _ (cell : ℕ → Cell) (blanks : ℕ) (numbered : (k : ℕ) → day_of (cell k) ≡ some k) where
  day_position :
      (n d i : ℕ) {x : Cell} (k : ℕ)
      → get_elem? (days_from cell d n ++ replicate blanks nonday) i ≡ some x
      → day_of x ≡ some k
      → k ≡ d + i
  unfolding days_from
  day_position zero d i k h e = cc (all_blank blanks i h)
  day_position (suc n) d zero {x} k h e =
      omega (arith, some-injective _ _ (sym (numbered d) ∙ ap day_of (some-injective _ _ h) ∙ e))
  day_position (suc n) d (suc i) k h e = omega (arith, day_position n (d + 1) i k h e)

  month_position :
      (start n i : ℕ) {x : Cell} (k : ℕ)
      → get_elem? (replicate start nonday ++ (days_from cell 1 n ++ replicate blanks nonday)) i
        ≡ some x
      → day_of x ≡ some k
      → start + k ≡ 1 + i
  month_position zero n i k h e = omega (arith, day_position n 1 i k h e)
  month_position (suc start) n zero k h e = cc
  month_position (suc start) n (suc i) k h e = omega (arith, month_position start n i k h e)

day_cell-number :
    (today : Day) (selected : Option Day) (month : ℕ) (year : ℤ) (k : ℕ)
    → day_of (day_cell today selected month year k) ≡ some k
unfolding day_cell
day_cell-number today selected month year k = refl

days_pos : (month : ℕ) (year : ℤ) → 0 < get_days_in_month month year
unfolding get_days_in_month
days_pos month year = ground arith

starting_pos-get_day :
    (first month : ℕ) (year : ℤ)
    → starting_pos first month year ≡ get_day year (month - 1) (1 + 6 * first)
unfolding starting_pos
starting_pos-get_day first month year = refl

draw-IsMonth :
    (first_day_of_week : ℕ) (today : Day) (month : ℕ) (year : ℤ) (selected : Option Day)
    → IsMonth
        (day_cell today selected month year)
        (starting_pos first_day_of_week month year)
        (get_days_in_month month year)
        (draw first_day_of_week today month year selected).rows
draw-IsMonth first today month year selected =
    let start_lt : starting_pos first month year < 7 =
      unfold starting_pos in get_day-lt year (month - 1) (1 + 6 * first) in
    unfold draw in
    draw_rows-IsMonth (day_cell today selected month year) (starting_pos first month year)
      (get_days_in_month month year) start_lt (days_pos month year)

-- The heading that `draw` writes over a column.
draw-header :
    (first_day_of_week : ℕ) (today : Day) (month : ℕ) (year : ℤ) (selected : Option Day) (c : ℕ)
    → c < 7
    → get_elem? (draw first_day_of_week today month year selected).header c
      ≡ some (get_elem? days_of_week_initial ((c + first_day_of_week) % 7))
unfolding draw
draw-header first today month year selected c h =
    get_elem?-map_seven (λ (i : ℕ). get_elem? days_of_week_initial ((i + first) % 7)) c h

-- A year all of whose days `Date` has.
abbrev IsDateYear : ℤ → Type 0
IsDateYear (pos n) = n ≤ 275759
IsDateYear (negsuc n) = n < 271820

-- For a first day of the week below 7, a month from 1 to 12 and a year all of whose days `Date` has:
-- in the table that `draw` makes every row has seven cells, and over the column of a day's number the
-- header has the initial of the weekday that `Date` gives that day.
pub draw_weekdays :
    (first_day_of_week : ℕ) (today : Day) (month : ℕ) (year : ℤ) (selected : Option Day)
    → first_day_of_week < 7
    → 1 ≤ month
    → month ≤ 12
    → IsDateYear year
    → All IsWeek (draw first_day_of_week today month year selected).rows
      × ((r c k : ℕ) (row : List Cell) (x : Cell)
          → get_elem? (draw first_day_of_week today month year selected).rows r ≡ some row
          → get_elem? row c ≡ some x
          → day_of x ≡ some k
          → get_elem? (draw first_day_of_week today month year selected).header c
            ≡ some (get_elem? days_of_week_initial (get_day year (month - 1) k)))
draw_weekdays first today month year selected _ _ _ _ = (
  month_rows.weeks,
  λ r c k row x at_row at_column number.
      let spot = cell_position rows r c month_rows.weeks at_row at_column in
      let place =
        month_position (day_cell today selected month year) month_rows.blanks
          (day_cell-number today selected month year) start (get_days_in_month month year)
          (7 * r + c) k (rw month_rows.layout at spot) number in
      let weekday : (c + first) % 7 ≡ get_day year (month - 1) k = omega (
        arith,
        starting_pos-get_day first month year,
        get_day_linear year (month - 1) k,
        get_day_linear year (month - 1) (1 + 6 * first),
      ) in
      let column = get_elem?-lt row c at_column in
      draw-header first today month year selected c
        (omega (arith, All-at IsWeek rows r month_rows.weeks at_row, column))
      ∙ ap (λ (d : ℕ). some (get_elem? days_of_week_initial d)) weekday,
)
  where
    start : ℕ
    start = starting_pos first month year

    rows : List (List Cell)
    rows = (draw first today month year selected).rows

    month_rows :
        IsMonth (day_cell today selected month year) start (get_days_in_month month year) rows
    month_rows = draw-IsMonth first today month year selected
