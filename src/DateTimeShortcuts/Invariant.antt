-- ===== src/DateTimeShortcuts/Invariant.antt =====
-- Whatever the events: no listener throws, each calendar shows a month, and a box that is shown has
-- its listener.
pub mod Steps
pub mod Start
use agentsecrets_server.Prelude.{
  ℕ, zero, suc, ◌-◌, ◌<◌, ◌≡◌, refl, ap, ◌∙◌, true, Option, none, some, List, [], ◌∷◌, map, ◌>>=◌,
  length, All, arith,
}
use agentsecrets_server.Prelude.Int.{ℤ, pos, negsuc}
use agentsecrets_server.Calendar.{Calendar, Day, draw_date, draw_previous_month, draw_next_month}
use agentsecrets_server.Calendar.Navigation.{IsValid as IsMonth}
use agentsecrets_server.DateTimeShortcuts.{
  Popup, Clock, DateField, Page, Focus, Setting, modify, draw_selected, draw_value,
}
use agentsecrets_server.DateTimeShortcuts.Events.{
  Event, clock_icon, now_link, hour_link, clock_cancel, calendar_icon, today_link, day_link,
  calendar_day, previous, next, calendar_cancel, elsewhere, escape, close, click_document,
  press_escape,
}

-- A box that is shown is dismissed by a click on the document.
abbrev pub Listens : Popup → Type 0
Listens b = b.shown ≡ true → b.listening ≡ true

abbrev pub ClockIsValid : Clock → Type 0
ClockIsValid c = Listens c.box

abbrev pub DateIsValid : DateField → Type 0
DateIsValid f = Listens f.box × IsMonth f.calendar

abbrev pub IsValid : Page → Type 0
IsValid p = All ClockIsValid p.clocks × All DateIsValid p.dates

-- The number of an event is that of a box.
abbrev pub InRange : ℕ → ℕ → Event → Type 0
InRange clocks dates (clock_icon x y num) = num < clocks
InRange clocks dates (now_link t num) = num < clocks
InRange clocks dates (hour_link t val num) = num < clocks
InRange clocks dates (clock_cancel num) = num < clocks
InRange clocks dates (calendar_icon x y num) = num < dates
InRange clocks dates (today_link t num) = num < dates
InRange clocks dates (day_link t offset num) = num < dates
InRange clocks dates (calendar_day y m d num) = num < dates
InRange clocks dates (previous num) = num < dates
InRange clocks dates (next num) = num < dates
InRange clocks dates (calendar_cancel num) = num < dates
InRange clocks dates elsewhere = Unit
InRange clocks dates escape = Unit

pub modify_lem {ℓ κ} :
    {A : Type ℓ} (P : A → Type κ) (f : A → A) (i : ℕ) (xs : List A)
    → ((x : A) → P x → P (f x))
    → i < length xs
    → All P xs
    → (ys : List A) × (modify f i xs ≡ some ys) × (length ys ≡ length xs) × All P ys
unfolding modify
modify_lem P f i [] step h v = absurd (omega arith)
modify_lem P f zero (x ∷ xs) step h v = (f x ∷ xs, refl, refl, (step x v.0, v.1))
modify_lem P f (suc i) (x ∷ xs) step h v =
    let (ys, e, n, w) = modify_lem P f i xs step (omega arith) v.1 in
    (x ∷ ys, rw e refl, ap suc n, (v.0, w))

-- The handlers that change one clock, or one date field.
pub change_clock : (Clock → Clock) → ℕ → Option Focus → Page → Option Page
change_clock f i focus p =
    modify f i p.clocks >>= λ (cs : List Clock). some (record p { clocks = cs; focus = focus })

pub change_date : (DateField → DateField) → ℕ → Option Focus → Page → Option Page
change_date f i focus p =
    modify f i p.dates >>= λ (ds : List DateField). some (record p { dates = ds; focus = focus })

-- The result is there, valid, and has the boxes of the page.
abbrev pub Goes : Option Page → Page → Type 0
Goes result p =
    (p' : Page) × (result ≡ some p')
    × IsValid p'
    × (length p'.clocks ≡ length p.clocks)
    × (length p'.dates ≡ length p.dates)

pub change_clock-Goes :
    (f : Clock → Clock) (i : ℕ) (focus : Option Focus) (p : Page)
    → ((c : Clock) → ClockIsValid c → ClockIsValid (f c))
    → i < length p.clocks
    → IsValid p
    → Goes (change_clock f i focus p) p
unfolding change_clock
change_clock-Goes f i focus p step h v =
    let (cs, e, n, w) = modify_lem ClockIsValid f i p.clocks step h v.0 in
    (record p { clocks = cs; focus = focus }, rw e refl, (w, v.1), n, refl)

pub change_date-Goes :
    (f : DateField → DateField) (i : ℕ) (focus : Option Focus) (p : Page)
    → ((d : DateField) → DateIsValid d → DateIsValid (f d))
    → i < length p.dates
    → IsValid p
    → Goes (change_date f i focus p) p
unfolding change_date
change_date-Goes f i focus p step h v =
    let (ds, e, n, w) = modify_lem DateIsValid f i p.dates step h v.1 in
    (record p { dates = ds; focus = focus }, rw e refl, (v.0, w), refl, n)

-- A second handler on the page that the first one leaves.
pub Goes-then :
    (first : Option Page) (second : Page → Option Page) (p : Page)
    → Goes first p
    → ((q : Page)
        → length q.clocks ≡ length p.clocks
        → length q.dates ≡ length p.dates
        → IsValid q
        → Goes (second q) q)
    → Goes (first >>= second) p
Goes-then first second p (q, e, v, m, n) k =
    let (r, e', v', m', n') = k q m n v in (r, rw e e', v', m' ∙ m, n' ∙ n)

close-Listens : (b : Popup) → Listens b → Listens (close b)
close-Listens b h = ground arith

length-map {ℓ} : {A : Type ℓ} (f : A → A) (xs : List A) → length (map f xs) ≡ length xs
length-map f [] = refl
length-map f (x ∷ xs) = ap suc (length-map f xs)

map-All {ℓ κ} :
    {A : Type ℓ} (P : A → Type κ) (f : A → A) (xs : List A)
    → ((x : A) → P x → P (f x))
    → All P xs
    → All P (map f xs)
map-All P f [] step h = tt
map-All P f (x ∷ xs) step h = (step x h.0, map-All P f xs step h.1)

pub click_document-Goes : (p : Page) → IsValid p → Goes (some (click_document p)) p
unfolding click_document
click_document-Goes p v = (
  click_document p,
  refl,
  (
    map-All ClockIsValid _ p.clocks (λ c. close-Listens c.box) v.0,
    map-All DateIsValid _ p.dates (λ f w. (close-Listens f.box w.0, w.1)) v.1,
  ),
  length-map _ p.clocks,
  length-map _ p.dates,
)

pub press_escape-Goes : (p : Page) → IsValid p → Goes (some (press_escape p)) p
unfolding press_escape
press_escape-Goes p v = (
  press_escape p,
  refl,
  (
    map-All ClockIsValid _ p.clocks (λ c w h. cc) v.0,
    map-All DateIsValid _ p.dates (λ f w. (λ h. cc, w.1)) v.1,
  ),
  length-map _ p.clocks,
  length-map _ p.dates,
)

draw_selected-IsMonth : (s : Option Day) (c : Calendar) → IsMonth c → IsMonth (draw_selected s c)
unfolding draw_selected draw_date
draw_selected-IsMonth none c v = v
draw_selected-IsMonth (some s) c v = ground arith

pub draw_value-IsMonth :
    (g : Setting) (value : List ℕ) (c : Calendar) → IsMonth c → IsMonth (draw_value g value c)
unfolding draw_value
draw_value-IsMonth g [] c v = v
draw_value-IsMonth g (d ∷ value) c v = draw_selected-IsMonth _ c v

pub previous-IsMonth : (c : Calendar) → IsMonth c → IsMonth (draw_previous_month c)
unfolding draw_previous_month
previous-IsMonth c v = ground arith

pub next-IsMonth : (c : Calendar) → IsMonth c → IsMonth (draw_next_month c)
unfolding draw_next_month
next-IsMonth c v = ground arith
