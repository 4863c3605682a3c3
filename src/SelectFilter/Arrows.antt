-- ===== src/SelectFilter/Arrows.antt =====
-- The arrow keys go round the options of a box.
use Prim.Native.String.{String}
use agentsecrets_server.Prelude.{
  ℕ, suc, ◌+◌, ◌-◌, ◌%◌, ◌<◌, ◌≤◌, List, [], ◌∷◌, Option, some, Bool, true, false, if◌then◌else◌,
  ◌==◌, ==_iff, length, >>=-eq-some, ◌≡◌, refl, sym, ap, ◌∙◌, inl, inr, Bool-cases, arith,
}
use native.Mathlib.Nat.{mod_self, mod-eq_of_lt}
use native.Mathlib.Numerals.{add-one}
use agentsecrets_server.Text.{CaseMapping}
use agentsecrets_server.SelectBox.{Item, Box, assign}
use agentsecrets_server.SelectBox.Filter.{assign_self}
use agentsecrets_server.SelectFilter.{
  Ids, Field, selected_index, set_selected_from, set_selected_index, put_selected_index, index_down,
  index_up, move_selected_index, filter_key_down,
}

length-set_selected_from :
    (i : ℕ) (index : Option ℕ) (os : List Item) → length (set_selected_from i index os) ≡ length os
unfolding set_selected_from
length-set_selected_from i index [] = refl
length-set_selected_from i index (o ∷ os) = ap suc (length-set_selected_from (i + 1) index os)

selected_index-set_from :
    (i k : ℕ) (os : List Item)
    → i ≤ k
    → k < i + length os
    → selected_index (set_selected_from i (some k) os) ≡ some (k - i)
unfolding selected_index set_selected_from
selected_index-set_from i k [] low high = absurd (omega arith)
selected_index-set_from i k (o ∷ os) low high = elim (Bool-cases (k == i)) [
  | inl same ↦ rw same (ground (arith, same))
  | inr other ↦
      rw (other, selected_index-set_from (i + 1) k os (ground (arith, other)) (omega arith))
        (ground (arith, other))
]

selected_index-lt : (os : List Item) (i : ℕ) → selected_index os ≡ some i → i < length os
unfolding selected_index
selected_index-lt [] i h = cc
selected_index-lt (o ∷ os) i h = elim (Bool-cases o.selected) [
  | inl here ↦ ground (arith, here)
  | inr there ↦
      let (j, e, k) = >>=-eq-some (selected_index os) (λ (j : ℕ). some (j + 1)) (rw there at h) in
      ground (arith, selected_index-lt os j e, k)
]

-- The box has `n` options, and the first selected one is number `i`.
abbrev pub IsAt : String → Field → ℕ → ℕ → Type 0
IsAt source f n i =
    (box : Box) × (f.page.boxes source ≡ some box)
    × (length box.options ≡ n)
    × (selected_index box.options ≡ some i)

move_selected_index-IsAt :
    (next : Option ℕ → ℕ → Option ℕ) (source : String) (f : Field) (n i j : ℕ)
    → next (some i) n ≡ some j
    → j < n
    → IsAt source f n i
    → (g : Field) × (move_selected_index next source f ≡ some g) × IsAt source g n j
unfolding move_selected_index put_selected_index
move_selected_index-IsAt next source f n i j e lt (box, there, size, at_i) =
    let options = set_selected_index (some j) box.options in
    let new : Box = record box { options = options } in
    (
      record f { page = record (f.page) { boxes = assign f.page.boxes source new } },
      simp (there, size, at_i, e),
      (
        new,
        assign_self f.page.boxes source new,
        length-set_selected_from 0 (some j) box.options ∙ size,
        selected_index-set_from 0 j box.options (omega arith) (omega (arith, size))
            ∙ ap (λ (k : ℕ). some k) (omega arith),
      ),
    )

index_down_lem : (n i : ℕ) → i < n → index_down (some i) n ≡ some ((i + 1) % n)
index_down_lem n i lt = elim (Bool-cases (n == i + 1)) [
  | inl last ↦ rw last (ap (λ (k : ℕ). some k) (rw ((==_iff _ _).0 last) (sym (mod_self (i + 1)))))
  | inr more ↦ rw more (ap (λ (k : ℕ). some k) (sym (mod-eq_of_lt (ground (arith, more)))))
]

index_up-suc : (n i : ℕ) → index_up (some (i + 1)) n ≡ some i
index_up-suc n i = rw add-one refl

index_up_lem : (n i : ℕ) → i < n → index_up (some ((i + 1) % n)) n ≡ some i
index_up_lem n i lt = elim (Bool-cases (n == i + 1)) [
  | inl last ↦ rw ((==_iff _ _).0 last, mod_self) (ground arith)
  | inr more ↦ rw (mod-eq_of_lt {n = i + 1} {m = n} (ground (arith, more))) (index_up-suc n i)
]

mod_lt : (n i : ℕ) → i < n → (i + 1) % n < n
mod_lt n i lt = omega arith

module _ (host : CaseMapping) (ids : Ids) where
  abbrev pub source_of : Bool → String
  source_of is_from = if is_from then ids.from else ids.to

  key_40 :
      (is_from : Bool) (f : Field)
      → filter_key_down host ids 40 is_from f ≡ move_selected_index index_down (source_of is_from) f
  unfolding filter_key_down
  key_40 true f = refl
  key_40 false f = refl

  key_38 :
      (is_from : Bool) (f : Field)
      → filter_key_down host ids 38 is_from f ≡ move_selected_index index_up (source_of is_from) f
  unfolding filter_key_down
  key_38 true f = refl
  key_38 false f = refl

  -- Where option `i` of the `n` options of a box is the first that is selected, the arrow down selects
  -- the next one, round to the first, and the arrow up then selects option `i` again.
  pub filter_key_down-round :
      (is_from : Bool) (f : Field) (n i : ℕ)
      → i < n
      → IsAt (source_of is_from) f n i
      → (g : Field) × (filter_key_down host ids 40 is_from f ≡ some g)
        × IsAt (source_of is_from) g n ((i + 1) % n)
        × (h : Field) × (filter_key_down host ids 38 is_from g ≡ some h)
        × IsAt (source_of is_from) h n i
  filter_key_down-round is_from f n i lt at_i =
      let source = source_of is_from in
      let (g, down, at_next) =
        move_selected_index-IsAt index_down source f n i ((i + 1) % n) (index_down_lem n i lt)
          (mod_lt n i lt) at_i in
      let (h, up, at_i_again) =
        move_selected_index-IsAt index_up source g n ((i + 1) % n) i (index_up_lem n i lt) lt
          at_next in
      (g, key_40 is_from f ∙ down, at_next, h, key_38 is_from g ∙ up, at_i_again)
