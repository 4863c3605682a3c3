-- ===== src/Unfold/Inlines/Steps.antt =====
-- The invariant of the inline forms under the clicks.
use agentsecrets_server.Prelude.{◌<◌, length, ℕ}
use agentsecrets_server.Unfold.Inlines.{Inlines, Target, delete_inline, add_inline}
use agentsecrets_server.Unfold.Inlines.Valid.{IsValid, delete_inline-IsValid, add_inline-IsValid}

-- The clicks on the add button, with what they hit, and on the delete links of these forms.
pub data Click : Inlines → Inlines → Type 0 where
  add_click : {s : Inlines} (target : Target) → Click s (add_inline target s)
  delete_click : {s : Inlines} (n : ℕ) → n < length s.rows → Click s (delete_inline n s)

pub data Clicks : Inlines → Inlines → Type 0 where
  no_click : {s : Inlines} → Clicks s s
  and_then : {s t u : Inlines} → Click s t → Clicks t u → Clicks s u

pub Click-IsValid : {s t : Inlines} → Click s t → IsValid s → IsValid t
Click-IsValid (add_click {s} target) v = add_inline-IsValid target s v
Click-IsValid (delete_click {s} n h) v = delete_inline-IsValid n s h v

-- After any clicks on the add button and the delete links of valid inline forms they are valid: the
-- names of form `i` have the number `i`, nested ones included, TOTAL_FORMS counts the forms and is
-- within both limits, and the stacked counters and the classes `last` and `empty` are right.
pub Clicks-IsValid : {s t : Inlines} → Clicks s t → IsValid s → IsValid t
Clicks-IsValid no_click v = v
Clicks-IsValid (and_then c cs) v = Clicks-IsValid cs (Click-IsValid c v)
