-- ===== src/Calendar/Navigation.antt =====
-- Stepping from month to month and from year to year.
use native.Mathlib.Nat.{zero-add, suc-add}
use agentsecrets_server.Prelude.{
  ℕ, zero, suc, ◌+◌, ◌-◌, ◌≤◌, ◌≡◌, refl, ap, ◌∙◌, List, [], ◌∷◌, ◌++◌, arith, replicate,
}
use agentsecrets_server.Prelude.Int.{inc-dec, dec-inc}
use agentsecrets_server.Calendar.{
  inc, Calendar, draw_previous_month, draw_next_month, draw_previous_year, draw_next_year,
}

abbrev pub IsValid : Calendar → Type 0
IsValid c = (1 ≤ c.current_month) × (c.current_month ≤ 12)

-- What a user of the calendar can do.
pub data Move : Type 0 where
  previous_month next_month previous_year next_year : Move

pub act : Calendar → Move → Calendar
act c previous_month = draw_previous_month c
act c next_month = draw_next_month c
act c previous_year = draw_previous_year c
act c next_year = draw_next_year c

pub run : Calendar → List Move → Calendar
run c [] = c
run c (m ∷ moves) = run (act c m) moves

act-IsValid : (c : Calendar) (m : Move) → IsValid c → IsValid (act c m)
unfolding act draw_previous_month draw_next_month draw_previous_year draw_next_year
act-IsValid c previous_month v = ground arith
act-IsValid c _ v = ground arith

act-selected : (c : Calendar) (m : Move) → (act c m).selected ≡ c.selected
unfolding act draw_previous_month draw_next_month draw_previous_year draw_next_year
act-selected c previous_month = ground arith
act-selected c _ = ground arith

-- Whatever the clicks, the month stays between 1 and 12, and the selected day stays.
pub run-IsValid :
    (moves : List Move) (c : Calendar)
    → IsValid c
    → IsValid (run c moves) × ((run c moves).selected ≡ c.selected)
unfolding run
run-IsValid [] c v = (v, refl)
run-IsValid (m ∷ moves) c v =
    let (valid, same) = run-IsValid moves (act c m) (act-IsValid c m v) in
    (valid, same ∙ act-selected c m)

-- A step and its opposite give the calendar back.
abbrev pub opposite : Move → Move
opposite previous_month = next_month
opposite next_month = previous_month
opposite previous_year = next_year
opposite next_year = previous_year

pub act-opposite : (c : Calendar) (m : Move) → IsValid c → act (act c m) (opposite m) ≡ c
unfolding act draw_previous_month draw_next_month draw_previous_year draw_next_year
act-opposite c previous_month v = ground (arith, inc-dec c.current_year)
act-opposite c next_month v = ground (arith, dec-inc c.current_year)
act-opposite c previous_year v = ground (arith, inc-dec c.current_year)
act-opposite c next_year v = ground (arith, dec-inc c.current_year)

-- Twelve months are a year.
next_months-within :
    (n : ℕ) (c : Calendar)
    → c.current_month + n ≤ 12
    → run c (replicate n next_month) ≡ record c { current_month = c.current_month + n }
unfolding run act draw_next_month
next_months-within zero c h = ground arith
next_months-within (suc n) c h = ground (arith, next_months-within n (draw_next_month c))

run-append : (c : Calendar) (ms ns : List Move) → run c (ms ++ ns) ≡ run (run c ms) ns
unfolding run
run-append c [] ns = refl
run-append c (m ∷ ms) ns = run-append (act c m) ms ns

replicate-split :
    (a b : ℕ) (m : Move) → replicate (a + suc b) m ≡ replicate a m ++ m ∷ replicate b m
replicate-split zero b m = rw zero-add
replicate-split (suc a) b m = rw suc-add (ap (m ∷◌) (replicate-split a b m))

over_new_year :
    (c : Calendar)
    → c.current_month ≡ 12
    → act c next_month ≡ record c { current_month = 1; current_year = inc c.current_year }
unfolding act draw_next_month
over_new_year c h = ground arith

run_december :
    (d j : Calendar) (b : ℕ)
    → d.current_month ≡ 12
    → record d { current_month = 1; current_year = inc d.current_year } ≡ j
    → run d (next_month ∷ replicate b next_month) ≡ run j (replicate b next_month)
run_december d j b h e =
    unfold run in ap (λ (x : Calendar). run x (replicate b next_month)) (over_new_year d h ∙ e)

year_on :
    (c : Calendar) (b : ℕ)
    → 1 + b ≡ c.current_month
    → record c { current_month = 1 + b; current_year = inc c.current_year } ≡ act c next_year
unfolding act draw_next_year
year_on c b h = ground arith

-- Twelve steps to the next month are one step to the next year, from any month.
twelve_months : (c : Calendar) → IsValid c → run c (replicate 12 next_month) ≡ act c next_year
twelve_months c v =
    let a : ℕ = 12 - c.current_month in
    let b : ℕ = c.current_month - 1 in
    let december : Calendar = record c { current_month = c.current_month + a } in
    let january : Calendar = record c { current_month = 1; current_year = inc c.current_year } in
    let count : 12 ≡ a + suc b = omega arith in
    ap (λ (n : ℕ). run c (replicate n next_month)) count
    ∙ ap (run c) (replicate-split a b next_month)
    ∙ run-append c (replicate a next_month) (next_month ∷ replicate b next_month)
    ∙ ap (λ (d : Calendar). run d (next_month ∷ replicate b next_month))
        (next_months-within a c (omega arith))
    ∙ run_december december january b (omega arith) refl
    ∙ next_months-within b january (omega arith)
    ∙ year_on c b (omega arith)
