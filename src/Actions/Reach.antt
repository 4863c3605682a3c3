-- ===== src/Actions/Reach.antt =====
-- What holds of the page after any events.
use native.Mathlib.Nat.{add-zero, zero-add}
use agentsecrets_server.Prelude.{
  ℕ, zero, suc, ◌+◌, ◌≤◌, ◌<◌, ◌≡◌, refl, sym, ap, ◌∙◌, ◌≢◌, ◌⊎◌, inl, inr, Bool, true, false,
  Option, none, some, List, [], ◌∷◌, arith, ◌==◌, if◌then◌else◌, ==_iff, Bool-cases, length, All,
}
use agentsecrets_server.Actions.{
  show_clear, Row, Page, show_question, clear_across, mark, checker, count_checked, update_counter,
  affected, touch, everywhere, click_all_toggle, click_question, click_clear, change_select,
  change_other, key, page_show,
}

abbrev pub IsMarked : Row → Type 0
IsMarked r = r.selected ≡ r.checked

abbrev pub IsChecked : Row → Type 0
IsChecked r = r.checked ≡ true

-- The class of a row follows its box, the counter and the toggle follow the boxes, and the page asks
-- or promises to act on all objects only while every box is checked.
pub record IsConsistent (p : Page) : Type 0 where
  pub marks : All IsMarked p.rows
  pub counts : p.counter ≡ (count_checked p.rows, p.total)
  pub toggle : p.all_toggle ≡ (count_checked p.rows == length p.rows)
  pub across_all : (p.across ≡ 0) ⊎ (p.all_toggle ≡ true)
  pub question : p.questions_hidden ≡ false → p.all_toggle ≡ true
  pub cleared : p.clears_hidden ≡ false → p.across ≡ 1

-- The events; the question and its opposite can be clicked while they are shown.
pub data Step (p : Page) : Page → Type 0 where
  on_all_toggle : (checked : Bool) → Step p (click_all_toggle checked p)
  on_question : p.questions_hidden ≡ false → Step p (click_question p)
  on_clear : p.clears_hidden ≡ false → Step p (click_clear p)
  on_select :
      (target : ℕ) (checked : Bool)
      → target < length p.rows
      → Step p (change_select target checked p)
  on_other : Step p (change_other p)
  on_key : (shift_key : Bool) → Step p (key shift_key p)
  on_page_show : Step p (page_show p)

pub data Steps (p : Page) : Page → Type 0 where
  here : Steps p p
  next : {q r : Page} → Steps p q → Step q r → Steps p r

mark-IsMarked :
    (among : ℕ → Bool) (checked : Bool) (i : ℕ) (rows : List Row)
    → All IsMarked rows
    → All IsMarked (mark among checked i rows)
unfolding mark
mark-IsMarked among checked i [] h = tt
mark-IsMarked among checked i (r ∷ rows) h =
    (marked (among i), mark-IsMarked among checked (i + 1) rows h.1)
  where
    marked :
        (b : Bool) → IsMarked (if b then record { checked = checked; selected = checked } else r)
    marked true = refl
    marked false = h.0

shifted : (i n : ℕ) → i + suc n ≡ i + 1 + n
shifted i n = omega arith

-- Marking sets the touched box anyway, if it is among the marked ones.
pub mark-touch :
    (among : ℕ → Bool) (checked : Bool) (i n : ℕ) (rows : List Row)
    → among (i + n) ≡ true
    → mark among checked i (touch n checked rows) ≡ mark among checked i rows
unfolding mark touch
mark-touch among checked i n [] h = refl
mark-touch among checked i zero (r ∷ rows) h = rw (rw add-zero at h)
mark-touch among checked i (suc n) (r ∷ rows) h =
    ap ((if among i then record { checked = checked; selected = checked } else r) ∷◌)
      (mark-touch among checked (i + 1) n rows (rw (shifted i n) at h))

pub affected_target :
    (target : ℕ) (m : Bool) (last : Option ℕ) → affected target m last target ≡ true
unfolding affected
affected_target target m none = ground arith
affected_target target m (some last) = ground arith

-- The counter makes a page consistent whose rows are marked.
update_counter-IsConsistent : (p : Page) → All IsMarked p.rows → IsConsistent (update_counter p)
unfolding update_counter show_question clear_across
update_counter-IsConsistent p m = elim (Bool-cases (count_checked p.rows == length p.rows)) [
  | inl e ↦ rw e (record {
    marks = m;
    counts = refl;
    toggle = sym e;
    across_all = inr refl;
    question = λ _. refl;
    cleared = λ h. cc;
  })
  | inr e ↦ rw e (record {
    marks = m;
    counts = refl;
    toggle = sym e;
    across_all = inl refl;
    question = λ h. cc;
    cleared = λ h. cc;
  })
]

pub checker-marks :
    (among : ℕ → Bool) (checked : Bool) (p : Page)
    → (checker among checked p).rows ≡ mark among checked 0 p.rows
unfolding checker
checker-marks among true p = refl
checker-marks among false p = refl

click_question-IsConsistent :
    (p : Page) → p.questions_hidden ≡ false → IsConsistent p → IsConsistent (click_question p)
unfolding click_question show_clear
click_question-IsConsistent p shown c = record {
  marks = c.marks;
  counts = c.counts;
  toggle = c.toggle;
  across_all = inr (c.question shown);
  question = λ h. cc;
  cleared = λ h. refl;
}

clear_across-rows : (p : Page) → (clear_across p).rows ≡ p.rows
unfolding clear_across
clear_across-rows p = refl

Step-IsConsistent : {p q : Page} → Step p q → IsConsistent p → IsConsistent q
unfolding click_all_toggle click_clear change_select change_other key page_show
Step-IsConsistent {p} (on_all_toggle checked) c =
    update_counter-IsConsistent (checker everywhere checked (record p { all_toggle = checked }))
      (rw checker-marks (mark-IsMarked everywhere checked 0 p.rows c.marks))
Step-IsConsistent {p} (on_question shown) c = click_question-IsConsistent p shown c
Step-IsConsistent {p} (on_clear shown) c =
    update_counter-IsConsistent
      (checker everywhere false (clear_across (record p { all_toggle = false })))
      (rw (checker-marks, clear_across-rows) (mark-IsMarked everywhere false 0 p.rows c.marks))
Step-IsConsistent {p} (on_select target checked h) c =
    let among : ℕ → Bool = affected target p.shift_pressed p.last_checked in
    let q : Page = record p { rows = touch target checked p.rows } in
    let marked = update_counter-IsConsistent (checker among checked q) (
      rw
        (
          checker-marks,
          mark-touch among checked 0 target p.rows
              (rw zero-add (affected_target target p.shift_pressed p.last_checked)),
        )
        (mark-IsMarked among checked 0 p.rows c.marks)) in
    record {
      marks = marked.marks;
      counts = marked.counts;
      toggle = marked.toggle;
      across_all = marked.across_all;
      question = marked.question;
      cleared = marked.cleared;
    }
Step-IsConsistent on_other c = record {
  marks = c.marks;
  counts = c.counts;
  toggle = c.toggle;
  across_all = c.across_all;
  question = c.question;
  cleared = c.cleared;
}
Step-IsConsistent (on_key b) c = record {
  marks = c.marks;
  counts = c.counts;
  toggle = c.toggle;
  across_all = c.across_all;
  question = c.question;
  cleared = c.cleared;
}
Step-IsConsistent {p} on_page_show c = update_counter-IsConsistent p c.marks

count_checked-le : (rows : List Row) → count_checked rows ≤ length rows
unfolding count_checked
count_checked-le [] = omega arith
count_checked-le (r ∷ rows) = ground (arith, count_checked-le rows)

All-IsChecked : (rows : List Row) → count_checked rows ≡ length rows → All IsChecked rows
unfolding count_checked
All-IsChecked [] h = tt
All-IsChecked (r ∷ rows) h = (
  ground (arith, count_checked-le rows),
  All-IsChecked rows (ground (arith, count_checked-le rows)),
)

across-All-IsChecked : (p : Page) → IsConsistent p → p.across ≢ 0 → All IsChecked p.rows
across-All-IsChecked p c ne = by_phase c.across_all
  where
    by_phase : (p.across ≡ 0) ⊎ (p.all_toggle ≡ true) → All IsChecked p.rows
    by_phase (inl none_across) = absurd (ne none_across)
    by_phase (inr all) = All-IsChecked p.rows ((==_iff _ _).0 (sym c.toggle ∙ all))

-- After any events from a consistent page the page is consistent; and it says that an action is for
-- all objects, beyond this page, only while every box of this page is checked.
pub Steps-IsConsistent :
    {p q : Page}
    → Steps p q
    → IsConsistent p
    → IsConsistent q × (q.across ≢ 0 → All IsChecked q.rows)
Steps-IsConsistent here c = (c, across-All-IsChecked _ c)
Steps-IsConsistent (next steps step) c =
    let after = Step-IsConsistent step (Steps-IsConsistent steps c).0 in
    (after, across-All-IsChecked _ after)
