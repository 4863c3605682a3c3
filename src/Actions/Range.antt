-- ===== src/Actions/Range.antt =====
-- Which boxes a click changes, with shift and without.
use native.Mathlib.Nat.{add-zero, zero-add}
use mathlib.Core.Option
use agentsecrets_server.Prelude.{
  ℕ, zero, suc, ◌+◌, ◌≤◌, ◌<◌, min, max, ◌≡◌, refl, ap, ◌∙◌, ◌≢◌, ◌⊎◌, Bool, true, false, Option,
  none, some, List, [], ◌∷◌, arith, if◌then◌else◌, length, get_elem?,
}
use agentsecrets_server.Actions.{
  Row, Page, mark, update_counter, affected, change_select, show_question, clear_across,
}
use agentsecrets_server.Actions.Reach.{mark-touch, checker-marks, affected_target}

abbrev pub marked_row : Bool → Row
marked_row checked = record { checked = checked; selected = checked }

get_elem?-mark :
    (among : ℕ → Bool) (checked : Bool) (i n : ℕ) (rows : List Row)
    → get_elem? (mark among checked i rows) n
      ≡ Option.map (λ r. if among (i + n) then marked_row checked else r) (get_elem? rows n)
unfolding mark
get_elem?-mark among checked i n [] = refl
get_elem?-mark among checked i zero (r ∷ rows) = rw add-zero
get_elem?-mark among checked i (suc n) (r ∷ rows) =
    rw (← next_place i n) (get_elem?-mark among checked (i + 1) n rows)
  where
    next_place : (i n : ℕ) → i + 1 + n ≡ i + suc n
    next_place i n = omega arith

update_counter-rows : (p : Page) → (update_counter p).rows ≡ p.rows
unfolding update_counter show_question clear_across
update_counter-rows p = ground arith

change_select-rows :
    (target : ℕ) (checked : Bool) (p : Page)
    → (change_select target checked p).rows
      ≡ mark (affected target p.shift_pressed p.last_checked) checked 0 p.rows
unfolding change_select
change_select-rows target checked p =
    update_counter-rows _
    ∙ checker-marks _ _ _
    ∙ mark-touch (affected target p.shift_pressed p.last_checked) checked 0 target p.rows
        (rw zero-add (affected_target target p.shift_pressed p.last_checked))

change_select-at :
    (target i : ℕ) (checked : Bool) (p : Page)
    → get_elem? (change_select target checked p).rows i
      ≡ Option.map
          (λ r. if affected target p.shift_pressed p.last_checked i then marked_row checked else r)
          (get_elem? p.rows i)
change_select-at target i checked p =
    ap (λ (rows : List Row). get_elem? rows i) (change_select-rows target checked p)
    ∙ get_elem?-mark (affected target p.shift_pressed p.last_checked) checked 0 i p.rows
    ∙ rw zero-add

map_marked :
    (checked : Bool) (i : ℕ) (rows : List Row)
    → i < length rows
    → Option.map (λ (r : Row). marked_row checked) (get_elem? rows i) ≡ some (marked_row checked)
map_marked checked i [] h = elim h [ ]
map_marked checked zero (r ∷ rows) h = refl
map_marked checked (suc i) (r ∷ rows) h = map_marked checked i rows (omega arith)

map_same : (o : Option Row) → Option.map (λ (r : Row). r) o ≡ o
map_same none = refl
map_same (some r) = refl

-- A click with shift held, after another box was clicked: every box from the one to the other gets
-- the state of the clicked box, and its row the class; all other boxes and rows stay.
pub change_select-range :
    (target last i : ℕ) (checked : Bool) (p : Page)
    → p.shift_pressed ≡ true
    → p.last_checked ≡ some last
    → last ≢ target
    → (min target last ≤ i
        → i ≤ max target last
        → i < length p.rows
        → get_elem? (change_select target checked p).rows i ≡ some (marked_row checked))
      × ((i < min target last) ⊎ (max target last < i)
          → get_elem? (change_select target checked p).rows i ≡ get_elem? p.rows i)
change_select-range target last i checked p shift previous ne = (
  λ low high there.
      change_select-at target i checked p
      ∙ rw (shift, previous, inside target last i ne low high) (map_marked checked i p.rows there),
  λ out.
      change_select-at target i checked p
      ∙ rw (shift, previous, outside target last i ne out) (map_same (get_elem? p.rows i)),
)
  where
    inside : (t l n : ℕ) → l ≢ t → min t l ≤ n → n ≤ max t l → affected t true (some l) n ≡ true
    inside t l n d low high = unfold affected in ground arith

    outside :
        (t l n : ℕ) → l ≢ t → (n < min t l) ⊎ (max t l < n) → affected t true (some l) n ≡ false
    outside t l n d out = unfold affected in ground arith

-- A click without shift sets the clicked box and its row, and leaves all others.
change_select-single :
    (target i : ℕ) (checked : Bool) (p : Page)
    → p.shift_pressed ≡ false
    → (i ≡ target
        → i < length p.rows
        → get_elem? (change_select target checked p).rows i ≡ some (marked_row checked))
      × (i ≢ target → get_elem? (change_select target checked p).rows i ≡ get_elem? p.rows i)
change_select-single target i checked p shift = (
  λ same there.
      change_select-at target i checked p
      ∙ rw (shift, alone p.last_checked target i same) (map_marked checked i p.rows there),
  λ other.
      change_select-at target i checked p
      ∙ rw (shift, elsewhere p.last_checked target i other) (map_same (get_elem? p.rows i)),
)
  where
    alone : (o : Option ℕ) (t n : ℕ) → n ≡ t → affected t false o n ≡ true
    alone none t n e = unfold affected in ground arith
    alone (some l) t n e = unfold affected in ground arith

    elsewhere : (o : Option ℕ) (t n : ℕ) → n ≢ t → affected t false o n ≡ false
    elsewhere none t n e = unfold affected in ground arith
    elsewhere (some l) t n e = unfold affected in ground arith
