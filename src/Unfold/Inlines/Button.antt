-- ===== src/Unfold/Inlines/Button.antt =====
-- The add button of the inline forms, on pages without nested formsets.
use agentsecrets_server.Prelude.{
  ℕ, zero, suc, ◌+◌, ◌<◌, ◌≤◌, List, [], ◌∷◌, ◌++◌, none, true, false, ltb, leb, ◌==◌, length, ◌≡◌,
  refl, sym, ap, ◌∙◌, inl, inr, Bool-cases, All, arith,
}
use agentsecrets_server.Unfold.Inlines.{
  Row, Inlines, on_link, apply_last_class, update_stacked_counter, replace_row, reindex_rows,
  delete_row, has_add_row, show_add_row, mark_forms, number_row, number_last, hide_parent,
  delete_inline, add_inline,
}
use agentsecrets_server.Unfold.Inlines.Rows.{length-update_stacked_counter, length-delete_row}
use agentsecrets_server.Unfold.Inlines.Valid.{IsValid}
use agentsecrets_server.Unfold.Inlines.Steps.{
  Click, Clicks, add_click, delete_click, no_click, and_then, Click-IsValid,
}

-- No `.add-row` of a nested formset.
abbrev IsFlat : Row → Type 0
IsFlat r = r.nested_add ≡ none

apply_last_class-IsFlat : (rows : List Row) → All IsFlat rows → All IsFlat (apply_last_class rows)
unfolding apply_last_class
apply_last_class-IsFlat [] h = tt
apply_last_class-IsFlat (r ∷ rows) h = (h.0, apply_last_class-IsFlat rows h.1)

update_stacked_counter-IsFlat :
    (i : ℕ) (rows : List Row) → All IsFlat rows → All IsFlat (update_stacked_counter i rows)
unfolding update_stacked_counter
update_stacked_counter-IsFlat i [] h = tt
update_stacked_counter-IsFlat i (r ∷ rows) h = (h.0, update_stacked_counter-IsFlat (i + 1) rows h.1)

reindex_rows-IsFlat : (i : ℕ) (rows : List Row) → All IsFlat rows → All IsFlat (reindex_rows i rows)
unfolding reindex_rows replace_row
reindex_rows-IsFlat i [] h = tt
reindex_rows-IsFlat i (r ∷ rows) h = (h.0, reindex_rows-IsFlat (i + 1) rows h.1)

delete_row-IsFlat : (i n : ℕ) (rows : List Row) → All IsFlat rows → All IsFlat (delete_row i n rows)
unfolding delete_row
delete_row-IsFlat i n [] h = tt
delete_row-IsFlat i zero (r ∷ rows) h = reindex_rows-IsFlat (i + 1) rows h.1
delete_row-IsFlat i (suc n) (r ∷ rows) h = (h.0, delete_row-IsFlat (i + 1) n rows h.1)

number_last-IsFlat : (n : ℕ) (rows : List Row) → All IsFlat rows → All IsFlat (number_last n rows)
unfolding number_last number_row replace_row
number_last-IsFlat n [] h = tt
number_last-IsFlat n (r ∷ []) h = h
number_last-IsFlat n (r ∷ s ∷ rows) h = (h.0, number_last-IsFlat n (s ∷ rows) h.1)

append-IsFlat :
    (rows : List Row) (t : Row) → All IsFlat rows → IsFlat t → All IsFlat (rows ++ t ∷ [])
append-IsFlat [] t h k = (k, tt)
append-IsFlat (r ∷ rows) t h k = (h.0, append-IsFlat rows t h.1 k)

has_add_row-IsFlat : (rows : List Row) → All IsFlat rows → has_add_row rows ≡ false
unfolding has_add_row
has_add_row-IsFlat [] h = refl
has_add_row-IsFlat (r ∷ rows) h = rw (h.0, has_add_row-IsFlat rows h.1) refl

-- No form and no template has a nested formset's `.add-row`, and the formset's own is hidden exactly
-- when the limit is reached.
pub record IsGuarded (s : Inlines) : Type 0 where
  pub forms_flat : All IsFlat s.rows
  pub template_flat : IsFlat s.template
  pub button : s.add_row_hidden ≡ leb s.max_num_forms s.total_forms

-- A click on the add button hits its link.
abbrev HitsLink : {s t : Inlines} → Click s t → Type 0
HitsLink (add_click target) = target ≡ on_link
HitsLink (delete_click n h) = Unit

abbrev HitLinks : {s t : Inlines} → Clicks s t → Type 0
HitLinks no_click = Unit
HitLinks (and_then c cs) = HitsLink c × HitLinks cs

show_add_row-IsFlat :
    (s : Inlines)
    → All IsFlat s.rows
    → IsFlat s.template
    → show_add_row s ≡ record s { add_row_hidden = false }
unfolding show_add_row
show_add_row-IsFlat s h k = rw (has_add_row-IsFlat s.rows h, k) refl

add_inline-IsGuarded : (s : Inlines) → IsGuarded s → IsGuarded (add_inline on_link s)
unfolding add_inline hide_parent
add_inline-IsGuarded s g = elim (Bool-cases (leb s.max_num_forms s.total_forms)) [
  | inl full ↦ rw full g
  | inr room ↦
      let forms = number_last-IsFlat (length s.rows) _ (
        update_stacked_counter-IsFlat 0 _ (
          apply_last_class-IsFlat _
            (append-IsFlat s.rows s.template g.forms_flat g.template_flat))) in
      elim (Bool-cases (s.total_forms + 1 == s.max_num_forms)) [
        | inl last ↦
            rw (room, last)
              (record {
                forms_flat = forms;
                template_flat = g.template_flat;
                button = ground (arith, room, last);
              })
        | inr more ↦
            rw (room, more)
              (record {
                forms_flat = forms;
                template_flat = g.template_flat;
                button = ground (arith, room, more, g.button);
              })
      ]
]

-- One form less is below the limit.
below : (k total max : ℕ) → suc k ≡ total → total ≤ max → (ltb k max ≡ true) × (false ≡ leb max k)
below k total max e h = (ground arith, ground arith)

delete_inline-IsGuarded :
    (n : ℕ) (s : Inlines)
    → n < length s.rows
    → IsValid s
    → IsGuarded s
    → IsGuarded (delete_inline n s)
unfolding delete_inline mark_forms
delete_inline-IsGuarded n s h v g = elim (Bool-cases (s.total_forms == s.min_num_forms)) [
  | inl least ↦ rw least g
  | inr more ↦
      let kept = delete_row 0 n s.rows in
      let rows = update_stacked_counter 0 kept in
      let forms =
        update_stacked_counter-IsFlat 0 kept (delete_row-IsFlat 0 n s.rows g.forms_flat) in
      let size : suc (length rows) ≡ s.total_forms =
        ap suc (length-update_stacked_counter 0 kept)
        ∙ length-delete_row 0 n s.rows h
        ∙ sym v.total in
      let free = below (length rows) s.total_forms s.max_num_forms size v.most in
      let room : ltb (length rows) s.max_num_forms ≡ true = free.0 in
      let left : Inlines = record s { rows = rows; total_forms = length rows } in
      rw (more, room, show_add_row-IsFlat left forms g.template_flat)
        (record {
          forms_flat = apply_last_class-IsFlat rows forms;
          template_flat = g.template_flat;
          button = ground (arith, room);
        })
]

Click-IsGuarded :
    {s t : Inlines} (c : Click s t) → HitsLink c → IsValid s → IsGuarded s → IsGuarded t
Click-IsGuarded (add_click {s} target) link v g = rw link (add_inline-IsGuarded s g)
Click-IsGuarded (delete_click {s} n h) link v g = delete_inline-IsGuarded n s h v g

-- Where neither a form nor the template has a nested formset's `.add-row`, and the clicks on the add
-- button hit its link: after any clicks on valid inline forms whose `.add-row` is hidden exactly when
-- the limit is reached, that is so again.
pub Clicks-IsGuarded :
    {s t : Inlines} (cs : Clicks s t) → HitLinks cs → IsValid s → IsGuarded s → IsGuarded t
Clicks-IsGuarded no_click links v g = g
Clicks-IsGuarded (and_then c cs) links v g =
    Clicks-IsGuarded cs links.1 (Click-IsValid c v) (Click-IsGuarded c links.0 v g)
