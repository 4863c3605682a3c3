-- ===== src/Calendar/Grid.antt =====
-- The table of a month: rows of seven, the days in order, each under its weekday.
pub mod Weekdays
use native.Mathlib.Nat.{add-zero}
use mathlib.Core.Path.{subst₂}
use mathlib.Core.List.{append-nil, append_assoc}
use agentsecrets_server.Prelude.{
  ℕ, zero, suc, ◌+◌, ◌-◌, ◌*◌, ◌%◌, ◌≤◌, ◌<◌, ◌≡◌, refl, sym, ap, ◌∙◌, ◌≢◌, ◌⊎◌, inl, inr, Bool,
  true, false, not, ◌&&◌, List, [], ◌∷◌, ◌++◌, arith, ◌==◌, if◌then◌else◌, Bool-cases, length,
  replicate, All, length-append, length-replicate, All-append,
}
use agentsecrets_server.Calendar.{Cell, nonday, draw_days, draw_rows}

-- The cells of the rows, one after the other.
pub cells_of : List (List Cell) → List Cell
cells_of [] = []
cells_of (r ∷ rows) = r ++ cells_of rows

pub cells_of-append :
    (rows more : List (List Cell)) → cells_of (rows ++ more) ≡ cells_of rows ++ cells_of more
unfolding cells_of
cells_of-append [] more = refl
cells_of-append (r ∷ rows) more =
    ap (r ++◌) (cells_of-append rows more) ∙ sym (append_assoc r (cells_of rows) (cells_of more))

-- The days from `d` on, `n` of them.
pub days_from : (ℕ → Cell) → ℕ → ℕ → List Cell
days_from cell d zero = []
days_from cell d (suc n) = cell d ∷ days_from cell (d + 1) n

abbrev pub IsWeek : List Cell → Type 0
IsWeek r = length r ≡ 7

record IsGrid (i d : ℕ) (done : List (List Cell)) (row : List Cell) : Type 0 where
  full : All IsWeek done
  size : i ≡ 7 * length done + length row
  fits : length row ≤ 7
  phase : ((d ≡ 1) × (length row < 7)) ⊎ ((1 < d) × (0 < length row))

abbrev needs_row : ℕ → ℕ → Bool
needs_row i d = i % 7 == 0 && not (d == 1)

needs_row_facts : (i d : ℕ) → needs_row i d ≡ true → (i % 7 ≡ 0) × (d ≢ 1)
needs_row_facts i d h = ground arith

same_row_facts : (i d : ℕ) → needs_row i d ≡ false → (i % 7 ≢ 0) ⊎ (d ≡ 1)
same_row_facts i d h = ground arith

module _ (cell : ℕ → Cell) where
  -- The rows of one round, as `draw_days` passes them on.
  next_done : ℕ → ℕ → List (List Cell) → List Cell → List (List Cell)
  next_done i d done row = if needs_row i d then done ++ row ∷ [] else done

  next_row : ℕ → ℕ → List Cell → List Cell
  next_row i d row = if needs_row i d then cell d ∷ [] else row ++ cell d ∷ []

  next_IsGrid :
      (i d : ℕ) (done : List (List Cell)) (row : List Cell)
      → IsGrid i d done row
      → 0 < d
      → IsGrid (i + 1) (d + 1) (next_done i d done row) (next_row i d row)
  unfolding next_done next_row
  next_IsGrid i d done row g pos = elim (Bool-cases (needs_row i d)) [
    | inl new ↦
        let facts = needs_row_facts i d new in
        rw new (record {
          full = All-append IsWeek done (row ∷ []) g.full (omega arith, tt);
          size = omega (arith, length-append done (row ∷ []));
          fits = omega arith;
          phase = inr (omega arith, omega arith);
        })
    | inr same ↦
        let facts = same_row_facts i d same in
        let longer = length-append row (cell d ∷ []) in
        rw same (record {
          full = g.full;
          size = omega arith;
          fits = omega arith;
          phase = inr (omega arith, omega arith);
        })
  ]

  next_cells :
      (i d : ℕ) (done : List (List Cell)) (row : List Cell)
      → cells_of (next_done i d done row) ++ next_row i d row
        ≡ (cells_of done ++ row) ++ cell d ∷ []
  unfolding next_done next_row
  next_cells i d done row = elim (Bool-cases (needs_row i d)) [
    | inl new ↦ rw new (
        ap (λ (l : List Cell). l ++ cell d ∷ [])
          (cells_of-append done (row ∷ [])
            ∙ ap (cells_of done ++◌) (unfold cells_of in append-nil row)))
    | inr same ↦ rw same (sym (append_assoc (cells_of done) row (cell d ∷ [])))
  ]

  draw_days-IsGrid :
      (rounds i d : ℕ) (done : List (List Cell)) (row : List Cell)
      → IsGrid i d done row
      → 0 < d
      → IsGrid
          (i + rounds)
          (d + rounds)
          (draw_days cell rounds i d done row).0
          (draw_days cell rounds i d done row).1
  unfolding draw_days next_done next_row
  draw_days-IsGrid zero i d done row g pos = rw (add-zero i, add-zero d) g
  draw_days-IsGrid (suc n) i d done row g pos =
      let rest =
        draw_days-IsGrid n (i + 1) (d + 1) (next_done i d done row) (next_row i d row)
          (next_IsGrid i d done row g pos) (omega arith) in
      subst₂
        (λ (a b : ℕ).
          IsGrid a b (draw_days cell (suc n) i d done row).0
            (draw_days cell (suc n) i d done row).1)
        (omega arith) (omega arith) rest

  draw_days-cells :
      (rounds i d : ℕ) (done : List (List Cell)) (row : List Cell)
      → cells_of (draw_days cell rounds i d done row).0 ++ (draw_days cell rounds i d done row).1
        ≡ (cells_of done ++ row) ++ days_from cell d rounds
  unfolding draw_days days_from next_done next_row
  draw_days-cells zero i d done row = sym (append-nil (cells_of done ++ row))
  draw_days-cells (suc n) i d done row =
      draw_days-cells n (i + 1) (d + 1) (next_done i d done row) (next_row i d row)
      ∙ ap (λ (l : List Cell). l ++ days_from cell (d + 1) n) (next_cells i d done row)
      ∙ append_assoc (cells_of done ++ row) (cell d ∷ []) (days_from cell (d + 1) n)

  -- What the rows of a drawn month are.
  pub record IsMonth (start days : ℕ) (rows : List (List Cell)) : Type 0 where
    pub weeks : All IsWeek rows
    pub blanks : ℕ
    pub blanks_lt : blanks < 7
    pub layout :
        cells_of rows ≡ replicate start nonday ++ (days_from cell 1 days ++ replicate blanks nonday)

  -- Every row has seven cells. Row after row they are `start` blanks, the days in order, and fewer than
  -- seven blanks.
  pub draw_rows-IsMonth :
      (start days : ℕ) → start < 7 → 0 < days → IsMonth start days (draw_rows cell start days)
  unfolding draw_rows cells_of
  draw_rows-IsMonth start days h pos =
      let blank : List Cell = replicate start nonday in
      let n = length-replicate start nonday in
      let begin : IsGrid start 1 [] blank = record {
        full = tt;
        size = omega arith;
        fits = omega arith;
        phase = inl (refl, omega arith);
      } in
      let drawn = draw_days cell days start 1 [] blank in
      let grid : IsGrid (start + days) (1 + days) drawn.0 drawn.1 =
        draw_days-IsGrid days start 1 [] blank begin (omega arith) in
      let gap : ℕ = 7 - length drawn.1 in
      let pad = length-append drawn.1 (replicate gap nonday) in
      let pads = length-replicate gap nonday in
      let phase = grid.phase in
      let fits = grid.fits in
      record {
        weeks = All-append IsWeek drawn.0 (_ ∷ []) grid.full (omega arith, tt);
        blanks = gap;
        blanks_lt = omega arith;
        layout =
            cells_of-append drawn.0 ((drawn.1 ++ replicate gap nonday) ∷ [])
            ∙ ap (cells_of drawn.0 ++◌) (append-nil (drawn.1 ++ replicate gap nonday))
            ∙ sym (append_assoc (cells_of drawn.0) drawn.1 (replicate gap nonday))
            ∙ ap (λ (l : List Cell). l ++ replicate gap nonday)
                (draw_days-cells days start 1 [] blank)
            ∙ append_assoc blank (days_from cell 1 days) (replicate gap nonday);
      }
