-- ===== src/Unfold/Inlines/Rows.antt =====
-- What each loop over the form groups does to their numbers, counters and classes.
use agentsecrets_server.Prelude.{
  ℕ, zero, suc, ◌+◌, ◌<◌, List, [], ◌∷◌, Option, none, some, length, ◌≡◌, refl, sym, ap, arith,
  Bool-cases, inl, inr,
}
use agentsecrets_server.Unfold.Inlines.{
  Row, is_nil, set_counter, apply_last_class, update_stacked_counter, replace_row, reindex_rows,
  delete_row, number_row, number_last, is_there, show_nested_first,
}
use agentsecrets_server.Unfold.Inlines.Numbers.{InSequence, BeforeTemplate}

-- The counter of a row shows its place, and only the last row has the class.
abbrev pub Counted : ℕ → List Row → Type 0
Counted i [] = Unit
Counted i (r ∷ rows) = (set_counter (i + 1) r.counter ≡ r.counter) × Counted (i + 1) rows

abbrev pub LastMarked : List Row → Type 0
LastMarked [] = Unit
LastMarked (r ∷ rows) = (r.last ≡ is_nil rows) × LastMarked rows

set_counter_twice : (n : ℕ) (c : Option ℕ) → set_counter n (set_counter n c) ≡ set_counter n c
set_counter_twice n none = refl
set_counter_twice n (some m) = refl

pub update_stacked_counter-InSequence :
    (i j : ℕ) (rows : List Row) → InSequence i rows → InSequence i (update_stacked_counter j rows)
unfolding update_stacked_counter
update_stacked_counter-InSequence i j [] h = tt
update_stacked_counter-InSequence i j (r ∷ rows) h =
    (h.0, update_stacked_counter-InSequence (i + 1) (j + 1) rows h.1)

pub apply_last_class-InSequence :
    (i : ℕ) (rows : List Row) → InSequence i rows → InSequence i (apply_last_class rows)
unfolding apply_last_class
apply_last_class-InSequence i [] h = tt
apply_last_class-InSequence i (r ∷ rows) h = (h.0, apply_last_class-InSequence (i + 1) rows h.1)

pub update_stacked_counter-BeforeTemplate :
    (i j : ℕ) (rows : List Row)
    → BeforeTemplate i rows
    → BeforeTemplate i (update_stacked_counter j rows)
unfolding update_stacked_counter
update_stacked_counter-BeforeTemplate i j [] h = h
update_stacked_counter-BeforeTemplate i j (r ∷ []) h = h
update_stacked_counter-BeforeTemplate i j (r ∷ s ∷ rows) h =
    (h.0, update_stacked_counter-BeforeTemplate (i + 1) (j + 1) (s ∷ rows) h.1)

pub apply_last_class-BeforeTemplate :
    (i : ℕ) (rows : List Row) → BeforeTemplate i rows → BeforeTemplate i (apply_last_class rows)
unfolding apply_last_class
apply_last_class-BeforeTemplate i [] h = h
apply_last_class-BeforeTemplate i (r ∷ []) h = h
apply_last_class-BeforeTemplate i (r ∷ s ∷ rows) h =
    (h.0, apply_last_class-BeforeTemplate (i + 1) (s ∷ rows) h.1)

pub update_stacked_counter-Counted :
    (i : ℕ) (rows : List Row) → Counted i (update_stacked_counter i rows)
unfolding update_stacked_counter
update_stacked_counter-Counted i [] = tt
update_stacked_counter-Counted i (r ∷ rows) =
    (set_counter_twice (i + 1) r.counter, update_stacked_counter-Counted (i + 1) rows)

pub apply_last_class-Counted :
    (i : ℕ) (rows : List Row) → Counted i rows → Counted i (apply_last_class rows)
unfolding apply_last_class
apply_last_class-Counted i [] h = tt
apply_last_class-Counted i (r ∷ rows) h = (h.0, apply_last_class-Counted (i + 1) rows h.1)

pub number_last-Counted :
    (i n : ℕ) (rows : List Row) → Counted i rows → Counted i (number_last n rows)
unfolding number_last number_row replace_row
number_last-Counted i n [] h = tt
number_last-Counted i n (r ∷ []) h = h
number_last-Counted i n (r ∷ s ∷ rows) h = (h.0, number_last-Counted (i + 1) n (s ∷ rows) h.1)

pub is_nil-apply_last_class : (rows : List Row) → is_nil (apply_last_class rows) ≡ is_nil rows
unfolding apply_last_class
is_nil-apply_last_class [] = refl
is_nil-apply_last_class (r ∷ rows) = refl

pub apply_last_class-LastMarked : (rows : List Row) → LastMarked (apply_last_class rows)
unfolding apply_last_class
apply_last_class-LastMarked [] = tt
apply_last_class-LastMarked (r ∷ rows) =
    (sym (is_nil-apply_last_class rows), apply_last_class-LastMarked rows)

pub update_stacked_counter-LastMarked :
    (i : ℕ) (rows : List Row) → LastMarked rows → LastMarked (update_stacked_counter i rows)
unfolding update_stacked_counter
update_stacked_counter-LastMarked i [] h = tt
update_stacked_counter-LastMarked i (r ∷ []) h = h
update_stacked_counter-LastMarked i (r ∷ s ∷ rows) h =
    (h.0, update_stacked_counter-LastMarked (i + 1) (s ∷ rows) h.1)

pub number_last-LastMarked :
    (n : ℕ) (rows : List Row) → LastMarked rows → LastMarked (number_last n rows)
unfolding number_last number_row replace_row
number_last-LastMarked n [] h = tt
number_last-LastMarked n (r ∷ []) h = h
number_last-LastMarked n (r ∷ s ∷ []) h = h
number_last-LastMarked n (r ∷ s ∷ t ∷ rows) h = (h.0, number_last-LastMarked n (s ∷ t ∷ rows) h.1)

pub length-apply_last_class : (rows : List Row) → length (apply_last_class rows) ≡ length rows
unfolding apply_last_class
length-apply_last_class [] = refl
length-apply_last_class (r ∷ rows) = ap suc (length-apply_last_class rows)

pub length-update_stacked_counter :
    (i : ℕ) (rows : List Row) → length (update_stacked_counter i rows) ≡ length rows
unfolding update_stacked_counter
length-update_stacked_counter i [] = refl
length-update_stacked_counter i (r ∷ rows) = ap suc (length-update_stacked_counter (i + 1) rows)

pub length-number_last : (n : ℕ) (rows : List Row) → length (number_last n rows) ≡ length rows
unfolding number_last
length-number_last n [] = refl
length-number_last n (r ∷ []) = refl
length-number_last n (r ∷ s ∷ rows) = ap suc (length-number_last n (s ∷ rows))

pub length-reindex_rows : (i : ℕ) (rows : List Row) → length (reindex_rows i rows) ≡ length rows
unfolding reindex_rows
length-reindex_rows i [] = refl
length-reindex_rows i (r ∷ rows) = ap suc (length-reindex_rows (i + 1) rows)

pub length-delete_row :
    (i n : ℕ) (rows : List Row) → n < length rows → suc (length (delete_row i n rows)) ≡ length rows
unfolding delete_row
length-delete_row i n [] h = elim h [ ]
length-delete_row i zero (r ∷ rows) h = ap suc (length-reindex_rows (i + 1) rows)
length-delete_row i (suc n) (r ∷ rows) h = ap suc (length-delete_row (i + 1) n rows (omega arith))

pub is_nil-number_last : (n : ℕ) (rows : List Row) → is_nil (number_last n rows) ≡ is_nil rows
unfolding number_last
is_nil-number_last n [] = refl
is_nil-number_last n (r ∷ []) = refl
is_nil-number_last n (r ∷ s ∷ rows) = refl

pub show_nested_first-InSequence :
    (i : ℕ) (rows : List Row) → InSequence i rows → InSequence i (show_nested_first rows)
unfolding show_nested_first
show_nested_first-InSequence i [] h = tt
show_nested_first-InSequence i (r ∷ rows) h = elim (Bool-cases (is_there r.nested_add)) [
  | inl e ↦ rw e h
  | inr e ↦ rw e (h.0, show_nested_first-InSequence (i + 1) rows h.1)
]

pub show_nested_first-Counted :
    (i : ℕ) (rows : List Row) → Counted i rows → Counted i (show_nested_first rows)
unfolding show_nested_first
show_nested_first-Counted i [] h = tt
show_nested_first-Counted i (r ∷ rows) h = elim (Bool-cases (is_there r.nested_add)) [
  | inl e ↦ rw e h
  | inr e ↦ rw e (h.0, show_nested_first-Counted (i + 1) rows h.1)
]

pub length-show_nested_first : (rows : List Row) → length (show_nested_first rows) ≡ length rows
unfolding show_nested_first
length-show_nested_first [] = refl
length-show_nested_first (r ∷ rows) = elim (Bool-cases (is_there r.nested_add)) [
  | inl e ↦ rw e refl
  | inr e ↦ rw e (ap suc (length-show_nested_first rows))
]
