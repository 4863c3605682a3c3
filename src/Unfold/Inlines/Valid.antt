-- ===== src/Unfold/Inlines/Valid.antt =====
-- Valid inline forms, and that a click on a button keeps them valid.
use agentsecrets_server.Prelude.{
  ℕ, suc, ◌+◌, ◌<◌, ◌≤◌, List, [], ◌∷◌, ◌++◌, Bool, true, false, if◌then◌else◌, ltb, leb, ◌==◌,
  length, length-append, ◌≡◌, refl, sym, ap, ◌∙◌, inl, inr, Bool-cases, arith,
}
use agentsecrets_server.Unfold.Inlines.{
  Row, Inlines, Target, on_add_row, on_link, in_link, is_nil, is_there, apply_last_class,
  update_stacked_counter, delete_row, has_add_row, show_add_row, mark_forms, hide_parent,
  delete_inline, add_inline,
}
use agentsecrets_server.Unfold.Inlines.Numbers.{
  OfRow, HasPlaceholder, InSequence, number_last-InSequence, append-BeforeTemplate,
  delete_row-InSequence,
}
use agentsecrets_server.Unfold.Inlines.Rows.{
  Counted, LastMarked, update_stacked_counter-InSequence, apply_last_class-InSequence,
  update_stacked_counter-BeforeTemplate, apply_last_class-BeforeTemplate,
  update_stacked_counter-Counted, apply_last_class-Counted, number_last-Counted,
  is_nil-apply_last_class, apply_last_class-LastMarked, update_stacked_counter-LastMarked,
  number_last-LastMarked, length-apply_last_class, length-update_stacked_counter,
  length-number_last, length-delete_row, is_nil-number_last, show_nested_first-InSequence,
  show_nested_first-Counted, length-show_nested_first,
}

-- The forms and their names are numbered in sequence, TOTAL_FORMS counts them and is within both
-- limits, each stacked counter shows the place of its form, the class `last` stands on the last form
-- alone, the class `empty` on the formset without forms; the template's names have the placeholder.
pub record IsValid (s : Inlines) : Type 0 where
  pub sequence : InSequence 0 s.rows
  pub template : OfRow HasPlaceholder s.template
  pub total : s.total_forms ≡ length s.rows
  pub least : s.min_num_forms ≤ s.total_forms
  pub most : s.total_forms ≤ s.max_num_forms
  pub counters : Counted 0 s.rows
  pub lasts : LastMarked s.rows
  pub emptiness : s.empty ≡ is_nil s.rows

-- The same, before the classes `last` and `empty` are set.
record IsNumbered (s : Inlines) : Type 0 where
  sequence : InSequence 0 s.rows
  template : OfRow HasPlaceholder s.template
  total : s.total_forms ≡ length s.rows
  least : s.min_num_forms ≤ s.total_forms
  most : s.total_forms ≤ s.max_num_forms
  counters : Counted 0 s.rows

show_add_row-IsNumbered : (s : Inlines) → IsNumbered s → IsNumbered (show_add_row s)
unfolding show_add_row
show_add_row-IsNumbered s v = elim (Bool-cases (has_add_row s.rows)) [
  | inl e ↦ rw e (record {
    sequence = show_nested_first-InSequence 0 s.rows v.sequence;
    template = v.template;
    total = v.total ∙ sym (length-show_nested_first s.rows);
    least = v.least;
    most = v.most;
    counters = show_nested_first-Counted 0 s.rows v.counters;
  })
  | inr e ↦ elim (Bool-cases (is_there s.template.nested_add)) [
    | inl t ↦ rw (e, t) (same v v.template)
    | inr t ↦ rw (e, t) (same v v.template)
  ]
]
  where
    same :
        {t : Row} {shown : Bool}
        → IsNumbered s
        → OfRow HasPlaceholder t
        → IsNumbered (record s { template = t; add_row_hidden = shown })
    same w h = record {
      sequence = w.sequence;
      template = h;
      total = w.total;
      least = w.least;
      most = w.most;
      counters = w.counters;
    }

mark_forms-IsValid : (s : Inlines) → IsNumbered s → IsValid (mark_forms s)
unfolding mark_forms
mark_forms-IsValid s v = record {
  sequence = apply_last_class-InSequence 0 s.rows v.sequence;
  template = v.template;
  total = v.total ∙ sym (length-apply_last_class s.rows);
  least = v.least;
  most = v.most;
  counters = apply_last_class-Counted 0 s.rows v.counters;
  lasts = apply_last_class-LastMarked s.rows;
  emptiness = sym (is_nil-apply_last_class s.rows);
}

show-IsNumbered :
    (b : Bool) (s : Inlines) → IsNumbered s → IsNumbered (if b then show_add_row s else s)
show-IsNumbered true s v = show_add_row-IsNumbered s v
show-IsNumbered false s v = v

-- The limits, when one form goes.
one_less :
    (k total min max : ℕ)
    → suc k ≡ total
    → min ≤ total
    → total ≤ max
    → (total == min) ≡ false
    → (min ≤ k) × (k ≤ max)
one_less k total min max e low high more = (ground (arith, more), omega arith)

pub delete_inline-IsValid :
    (n : ℕ) (s : Inlines) → n < length s.rows → IsValid s → IsValid (delete_inline n s)
unfolding delete_inline
delete_inline-IsValid n s h v = elim (Bool-cases (s.total_forms == s.min_num_forms)) [
  | inl least ↦ rw least v
  | inr more ↦
      let kept = delete_row 0 n s.rows in
      let rows = update_stacked_counter 0 kept in
      let limits =
        one_less (length rows) s.total_forms s.min_num_forms s.max_num_forms
          (ap suc (length-update_stacked_counter 0 kept)
            ∙ length-delete_row 0 n s.rows h
            ∙ sym v.total)
          v.least v.most more in
      let left : Inlines = record s { rows = rows; total_forms = length rows } in
      rw more (
        mark_forms-IsValid (if ltb (length rows) s.max_num_forms then show_add_row left else left) (
          show-IsNumbered (ltb (length rows) s.max_num_forms) left (record {
            sequence =
                update_stacked_counter-InSequence 0 0 kept
                  (delete_row-InSequence 0 n s.rows v.sequence);
            template = v.template;
            total = refl;
            least = limits.0;
            most = limits.1;
            counters = update_stacked_counter-Counted 0 kept;
          })))
]

length-grown :
    (rows : List Row) (t : Row)
    → length (update_stacked_counter 0 (apply_last_class (rows ++ t ∷ []))) ≡ length rows + 1
length-grown rows t =
    length-update_stacked_counter 0 (apply_last_class (rows ++ t ∷ []))
    ∙ length-apply_last_class (rows ++ t ∷ [])
    ∙ length-append rows (t ∷ [])

hidden-IsValid :
    (actions add_row link : Bool) (s : Inlines)
    → IsValid s
    → IsValid (record s { actions_hidden = actions; add_row_hidden = add_row; link_hidden = link })
hidden-IsValid actions add_row link s v = record {
  sequence = v.sequence;
  template = v.template;
  total = v.total;
  least = v.least;
  most = v.most;
  counters = v.counters;
  lasts = v.lasts;
  emptiness = v.emptiness;
}

hide_parent-IsValid : (target : Target) (s : Inlines) → IsValid s → IsValid (hide_parent target s)
unfolding hide_parent
hide_parent-IsValid on_add_row s v = hidden-IsValid true s.add_row_hidden s.link_hidden s v
hide_parent-IsValid on_link s v = hidden-IsValid s.actions_hidden true s.link_hidden s v
hide_parent-IsValid in_link s v = hidden-IsValid s.actions_hidden s.add_row_hidden true s v

hide-IsValid :
    (b : Bool) (target : Target) (s : Inlines)
    → IsValid s
    → IsValid (if b then hide_parent target s else s)
hide-IsValid true target s v = hide_parent-IsValid target s v
hide-IsValid false target s v = v

pub add_inline-IsValid : (target : Target) (s : Inlines) → IsValid s → IsValid (add_inline target s)
unfolding add_inline
add_inline-IsValid target s v = elim (Bool-cases (leb s.max_num_forms s.total_forms)) [
  | inl full ↦ rw full v
  | inr room ↦
      let all = s.rows ++ s.template ∷ [] in
      let marked = apply_last_class all in
      let rows = update_stacked_counter 0 marked in
      let index = length s.rows in
      let size = length-grown s.rows s.template in
      rw room (
        hide-IsValid (s.total_forms + 1 == s.max_num_forms) target _ (record {
          sequence =
              number_last-InSequence 0 index rows
                (update_stacked_counter-BeforeTemplate 0 0 marked (
                  apply_last_class-BeforeTemplate 0 all
                    (append-BeforeTemplate 0 s.rows s.template v.sequence v.template)))
                (omega (arith, size));
          template = v.template;
          total = omega (arith, v.total, size, length-number_last index rows);
          least = omega (arith, v.least);
          most = ground (arith, room);
          counters = number_last-Counted 0 index rows (update_stacked_counter-Counted 0 marked);
          lasts =
              number_last-LastMarked index rows
                (update_stacked_counter-LastMarked 0 marked (apply_last_class-LastMarked all));
          emptiness = sym (is_nil-number_last index rows);
        }))
]
