-- ===== src/DateTimeShortcuts/Invariant/Start.antt =====
-- The page as `init` leaves it, and what any events make of it.
use agentsecrets_server.Prelude.{
  ℕ, ◌+◌, ◌<◌, ◌≤◌, ◌≡◌, ◌∙◌, false, some, List, [], ◌∷◌, map, length, All, All-append, arith,
  length-append,
}
use agentsecrets_server.Prelude.Int.{ℤ}
use agentsecrets_server.Calendar.{create}
use agentsecrets_server.DateTimeShortcuts.{
  empty_page, timezone_offset, add_timezone_warning, String, Popup, Clock, DateField, Page, Setting,
  Input, time_field, date_field, other, add_clock, add_calendar, add_inputs, init,
}
use agentsecrets_server.DateTimeShortcuts.Events.{Event, close, click_document, run}
use agentsecrets_server.DateTimeShortcuts.Invariant.{
  Listens, ClockIsValid, DateIsValid, IsValid, InRange,
}
use agentsecrets_server.DateTimeShortcuts.Invariant.Steps.{run-Goes}

-- The boxes that `init` makes.
abbrev pub count_times : List Input → ℕ
count_times [] = 0
count_times (time_field parent name value ∷ inputs) = count_times inputs + 1
count_times (_ ∷ inputs) = count_times inputs

abbrev pub count_dates : List Input → ℕ
count_dates [] = 0
count_dates (date_field parent name value ∷ inputs) = count_dates inputs + 1
count_dates (_ ∷ inputs) = count_dates inputs

-- A page that valid boxes have been added to.
record Added (p p' : Page) (times dates : ℕ) : Type 0 where
  valid : IsValid p'
  clock_count : length p'.clocks ≡ length p.clocks + times
  date_count : length p'.dates ≡ length p.dates + dates

add_clock-Added :
    (g : Setting) (name : String) (value : List ℕ) (p : Page)
    → IsValid p
    → Added p (add_clock g name value p) 1 0
unfolding add_clock
add_clock-Added g name value p v = record {
  valid = (All-append ClockIsValid p.clocks _ v.0 ((λ h. cc), tt), v.1);
  clock_count = length-append p.clocks _;
  date_count = omega arith;
}

month_bounds : (m : ℕ) → m < 12 → (1 ≤ m + 1) × (m + 1 ≤ 12)
month_bounds m h = (omega arith, omega arith)

add_calendar-Added :
    (g : Setting) (t : ℤ) (value : List ℕ) (p : Page)
    → IsValid p
    → Added p (add_calendar g t value p) 0 1
unfolding add_calendar create
add_calendar-Added g t value p v = record {
  valid = (
    v.0,
    All-append DateIsValid p.dates _ v.1 ((λ h. cc, month_bounds _ (g.host.month_lem t)), tt),
  );
  clock_count = omega arith;
  date_count = length-append p.dates _;
}

Added-trans :
    (p q r : Page) (a b c d m n : ℕ)
    → c + a ≡ m
    → d + b ≡ n
    → Added p q a b
    → Added q r c d
    → Added p r m n
Added-trans p q r a b c d m n e f x y = record {
  valid = y.valid;
  clock_count = omega (arith, x.clock_count, y.clock_count, e);
  date_count = omega (arith, x.date_count, y.date_count, f);
}

warned-Added :
    (offset : ℤ) (parent : ℕ) (p q : Page) (a b : ℕ)
    → Added p q a b
    → Added p (add_timezone_warning offset parent q) a b
unfolding add_timezone_warning
warned-Added offset parent p q a b x = record {
  valid = x.valid;
  clock_count = x.clock_count;
  date_count = x.date_count;
}

add_inputs-Added :
    (g : Setting) (t offset : ℤ) (inputs : List Input) (p : Page)
    → IsValid p
    → Added p (add_inputs g t offset inputs p) (count_times inputs) (count_dates inputs)
unfolding add_inputs
add_inputs-Added g t offset [] p v = record {
  valid = v;
  clock_count = omega arith;
  date_count = omega arith;
}
add_inputs-Added g t offset (time_field parent name value ∷ inputs) p v =
    let first = warned-Added offset parent p _ _ _ (add_clock-Added g name value p v) in
    Added-trans p (add_timezone_warning offset parent (add_clock g name value p)) _ 1 0 _ _ _ _
      (omega arith) (omega arith) first
      (add_inputs-Added g t offset inputs
        (add_timezone_warning offset parent (add_clock g name value p)) first.valid)
add_inputs-Added g t offset (date_field parent name value ∷ inputs) p v =
    let first = warned-Added offset parent p _ _ _ (add_calendar-Added g t value p v) in
    Added-trans p (add_timezone_warning offset parent (add_calendar g t value p)) _ 0 1 _ _ _ _
      (omega arith) (omega arith) first
      (add_inputs-Added g t offset inputs
        (add_timezone_warning offset parent (add_calendar g t value p)) first.valid)
add_inputs-Added g t offset (other ∷ inputs) p v = add_inputs-Added g t offset inputs p v

-- No box is shown.
abbrev pub IsHidden : Page → Type 0
IsHidden p =
    All (λ (c : Clock). c.box.shown ≡ false) p.clocks
    × All (λ (f : DateField). f.box.shown ≡ false) p.dates

close-hidden : (b : Popup) → Listens b → (close b).shown ≡ false
close-hidden b h = ground arith

map-All_of {ℓ κ μ} :
    {A : Type ℓ} (P : A → Type κ) (Q : A → Type μ) (f : A → A) (xs : List A)
    → ((x : A) → P x → Q (f x))
    → All P xs
    → All Q (map f xs)
map-All_of P Q f [] step h = tt
map-All_of P Q f (x ∷ xs) step h = (step x h.0, map-All_of P Q f xs step h.1)

click_document-IsHidden : (p : Page) → IsValid p → IsHidden (click_document p)
unfolding click_document
click_document-IsHidden p v = (
  map-All_of ClockIsValid _ _ p.clocks (λ c h. close-hidden c.box h) v.0,
  map-All_of DateIsValid _ _ p.dates (λ f h. close-hidden f.box h.0) v.1,
)

-- From the page as `init` leaves it, whatever the events on the boxes that it made: no listener
-- throws, the boxes stay as many, every calendar shows a month from 1 to 12, every box that is shown
-- has its listener on the document, and a click elsewhere hides them all.
pub run-init :
    (g : Setting) (t : ℤ) (inputs : List Input) (es : List Event)
    → All (InRange (count_times inputs) (count_dates inputs)) es
    → (p : Page) × (run g es (init g t inputs) ≡ some p)
      × IsValid p
      × (length p.clocks ≡ count_times inputs)
      × (length p.dates ≡ count_dates inputs)
      × IsHidden (click_document p)
unfolding init
run-init g t inputs es h =
    let start : Page = init g t inputs in
    let made = add_inputs-Added g t (timezone_offset g t) inputs empty_page (tt, tt) in
    let m : length start.clocks ≡ count_times inputs = omega (arith, made.clock_count) in
    let n : length start.dates ≡ count_dates inputs = omega (arith, made.date_count) in
    let (p, e, v, m', n') = run-Goes g es start (rw (m, n) h) made.valid in
    (p, e, v, m' ∙ m, n' ∙ n, click_document-IsHidden p v)
