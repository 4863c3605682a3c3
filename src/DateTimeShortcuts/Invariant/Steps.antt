-- ===== src/DateTimeShortcuts/Invariant/Steps.antt =====
-- Every event of a valid page goes through.
use agentsecrets_server.Prelude.{
  ℕ, ◌<◌, refl, ◌∙◌, Option, some, List, [], ◌∷◌, ◌>>=◌, length, All, arith,
}
use agentsecrets_server.Prelude.Int.{◌+ℤ◌, ℤ, pos, negsuc}
use agentsecrets_server.DateFormat.{strftime}
use agentsecrets_server.DateTimeShortcuts.{
  quick_time, now, Clock, DateField, Page, Setting, on_clock, on_date, dismiss_clock,
  dismiss_calendar, open_clock, open_calendar, handle_clock_quicklink, handle_calendar_quick_link,
  handle_calendar_callback, draw_prev, draw_next,
}
use agentsecrets_server.DateTimeShortcuts.Events.{
  Event, clock_icon, now_link, hour_link, clock_cancel, calendar_icon, today_link, day_link,
  calendar_day, previous, next, calendar_cancel, elsewhere, escape, click_document, handle, run,
}
use agentsecrets_server.DateTimeShortcuts.Invariant.{
  ClockIsValid, DateIsValid, IsValid, InRange, modify_lem, change_clock, change_date, Goes,
  change_clock-Goes, change_date-Goes, Goes-then, click_document-Goes, press_escape-Goes,
  draw_value-IsMonth, previous-IsMonth, next-IsMonth,
}

dismiss_clock-Goes :
    (num : ℕ) (p : Page) → num < length p.clocks → IsValid p → Goes (dismiss_clock num p) p
unfolding dismiss_clock change_clock
dismiss_clock-Goes num p h v = change_clock-Goes _ num p.focus p (λ c w k. cc) h v

dismiss_calendar-Goes :
    (num : ℕ) (p : Page) → num < length p.dates → IsValid p → Goes (dismiss_calendar num p) p
unfolding dismiss_calendar change_date
dismiss_calendar-Goes num p h v = change_date-Goes _ num p.focus p (λ f w. (λ k. cc, w.1)) h v

quicklink-Goes :
    (g : Setting) (t val : ℤ) (num : ℕ) (p : Page)
    → num < length p.clocks
    → IsValid p
    → Goes (handle_clock_quicklink g t val num p) p
unfolding handle_clock_quicklink
quicklink-Goes g t val num p h v =
    let written = strftime g.with_names (g.host.moment (quick_time g t val)) g.time_format in
    let (cs, e, n, w) =
      modify_lem ClockIsValid (λ (c : Clock). record c { value = written }) num p.clocks (λ c w. w)
        h v.0 in
    let (r, e', v', m', n') =
      dismiss_clock-Goes num (record p { clocks = cs; focus = some (on_clock num) })
        (omega (arith, n, h)) (w, v.1) in
    (r, rw e e', v', m' ∙ n, n')

quick_link-Goes :
    (g : Setting) (t offset : ℤ) (num : ℕ) (p : Page)
    → num < length p.dates
    → IsValid p
    → Goes (handle_calendar_quick_link g t offset num p) p
unfolding handle_calendar_quick_link
quick_link-Goes g t offset num p h v =
    let today = now g t in
    let day = g.host.set_date today (pos (g.host.moment today).date +ℤ offset) in
    let written = strftime g.with_names (g.host.moment day) g.date_format in
    let (ds, e, n, w) =
      modify_lem DateIsValid (λ (f : DateField). record f { value = written }) num p.dates
        (λ f w. w) h v.1 in
    let (r, e', v', m', n') =
      dismiss_calendar-Goes num (record p { dates = ds; focus = some (on_date num) })
        (omega (arith, n, h)) (v.0, w) in
    (r, rw e e', v', m', n' ∙ n)

on_document-Goes :
    (result : Option Page) (p : Page)
    → Goes result p
    → Goes (result >>= λ q. some (click_document q)) p
on_document-Goes result p goes =
    Goes-then result (λ q. some (click_document q)) p goes (λ q m n v. click_document-Goes q v)

handle-Goes :
    (g : Setting) (e : Event) (p : Page)
    → InRange (length p.clocks) (length p.dates) e
    → IsValid p
    → Goes (handle g e p) p
unfolding handle open_clock open_calendar handle_calendar_callback draw_prev draw_next change_clock
    change_date
handle-Goes g (clock_icon x y num) p h v = change_clock-Goes _ num p.focus p (λ c w k. refl) h v
handle-Goes g (now_link t num) p h v =
    on_document-Goes _ p (quicklink-Goes g t (negsuc 0) num p h v)
handle-Goes g (hour_link t val num) p h v = quicklink-Goes g t val num p h v
handle-Goes g (clock_cancel num) p h v = dismiss_clock-Goes num p h v
handle-Goes g (calendar_icon x y num) p h v =
    change_date-Goes _ num p.focus p
      (λ f w. (λ k. refl, draw_value-IsMonth g f.value f.calendar w.1)) h v
handle-Goes g (today_link t num) p h v =
    on_document-Goes _ p (quick_link-Goes g t (pos 0) num p h v)
handle-Goes g (day_link t offset num) p h v = quick_link-Goes g t offset num p h v
handle-Goes g (calendar_day y m d num) p h v =
    change_date-Goes _ num (some (on_date num)) p (λ f w. (λ k. cc, w.1)) h v
handle-Goes g (previous num) p h v =
    change_date-Goes _ num p.focus p (λ f w. (w.0, previous-IsMonth f.calendar w.1)) h v
handle-Goes g (next num) p h v =
    change_date-Goes _ num p.focus p (λ f w. (w.0, next-IsMonth f.calendar w.1)) h v
handle-Goes g (calendar_cancel num) p h v = dismiss_calendar-Goes num p h v
handle-Goes g elsewhere p h v = click_document-Goes p v
handle-Goes g escape p h v = press_escape-Goes p v

pub run-Goes :
    (g : Setting) (es : List Event) (p : Page)
    → All (InRange (length p.clocks) (length p.dates)) es
    → IsValid p
    → Goes (run g es p) p
unfolding run
run-Goes g [] p h v = (p, refl, v, refl, refl)
run-Goes g (e ∷ es) p h v =
    Goes-then (handle g e p) (run g es) p (handle-Goes g e p h.0 v)
      (λ q m n w. run-Goes g es q (rw (m, n) h.1) w)
