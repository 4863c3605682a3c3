-- ===== src/DateTimeShortcuts/Events.antt =====
-- DateTimeShortcuts.js: what the listeners that `addClock` and `addCalendar` bind do on the page.
use agentsecrets_server.Prelude.{ℕ, Option, some, List, [], ◌∷◌, map, if◌then◌else◌, ◌>>=◌}
use agentsecrets_server.Prelude.Int.{ℤ}
use agentsecrets_server.DateTimeShortcuts.{
  pos, negsuc, Popup, Clock, DateField, Page, Setting, hide, dismiss_clock, dismiss_calendar,
  open_clock, open_calendar, handle_clock_quicklink, handle_calendar_quick_link,
  handle_calendar_callback, draw_prev, draw_next,
}

-- A listener of the document dismisses its box.
abbrev pub close : Popup → Popup
close b = if b.listening then hide b else b

-- A click that reaches the document.
unfoldable pub click_document : Page → Page
click_document p = record p {
  clocks = map (λ (c : Clock). record c { box = close c.box }) p.clocks;
  dates = map (λ (f : DateField). record f { box = close f.box }) p.dates;
}

-- The Escape key: every box has its own listener, which dismisses it.
unfoldable pub press_escape : Page → Page
press_escape p = record p {
  clocks = map (λ (c : Clock). record c { box = hide c.box }) p.clocks;
  dates = map (λ (f : DateField). record f { box = hide f.box }) p.dates;
}

-- Clicks on the links of the box of the number, the keys, and the clicks elsewhere; each event with
-- what it reads of the host: where the link stands, or the time. In a box, and on the links that open
-- one, the click does not reach the document.
pub data Event : Type 0 where
  clock_icon : ℤ → ℤ → ℕ → Event
  now_link : ℤ → ℕ → Event
  hour_link : ℤ → ℤ → ℕ → Event
  clock_cancel : ℕ → Event
  calendar_icon : ℤ → ℤ → ℕ → Event
  today_link : ℤ → ℕ → Event
  day_link : ℤ → ℤ → ℕ → Event
  calendar_day : ℕ → ℕ → ℕ → ℕ → Event
  previous next calendar_cancel : ℕ → Event
  elsewhere escape : Event

unfoldable pub handle : Setting → Event → Page → Option Page
unfolding click_document press_escape open_clock handle_clock_quicklink dismiss_clock open_calendar
    handle_calendar_quick_link handle_calendar_callback draw_prev draw_next dismiss_calendar
handle g (clock_icon x y num) p = open_clock g x y num p
handle g (now_link t num) p =
    handle_clock_quicklink g t (negsuc 0) num p >>= λ q. some (click_document q)
handle g (hour_link t val num) p = handle_clock_quicklink g t val num p
handle g (clock_cancel num) p = dismiss_clock num p
handle g (calendar_icon x y num) p = open_calendar g x y num p
handle g (today_link t num) p =
    handle_calendar_quick_link g t (pos 0) num p >>= λ q. some (click_document q)
handle g (day_link t offset num) p = handle_calendar_quick_link g t offset num p
handle g (calendar_day y m d num) p = handle_calendar_callback g y m d num p
handle g (previous num) p = draw_prev num p
handle g (next num) p = draw_next num p
handle g (calendar_cancel num) p = dismiss_calendar num p
handle g elsewhere p = some (click_document p)
handle g escape p = some (press_escape p)

unfoldable pub run : Setting → List Event → Page → Option Page
run g [] p = some p
run g (e ∷ es) p = handle g e p >>= run g es
