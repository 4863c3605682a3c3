-- ===== src/Formset/Sequence.antt =====
-- The forms stay numbered in sequence, the inputs count them, and the buttons follow the limits.
use native.Mathlib.Nat.{add-zero, zero-add}
use agentsecrets_server.Prelude.{
  ℕ, zero, suc, ◌+◌, ◌<◌, ◌≡◌, refl, sym, ap, ◌∙◌, true, false, not, Option, none, some, List, [],
  ◌∷◌, ◌++◌, map, arith, if◌then◌else◌, length, All, length-append,
}
use agentsecrets_server.Formset.{
  Label, Form, Formset, update_element_index, is_full, is_minimal, new_form, add_inline, remove_at,
  renumber, delete_inline,
}

abbrev pub HasIndex : ℕ → Label → Type 0
HasIndex i l = l.index ≡ some i

-- Form by form from number `i` on, the id and the elements have the form's number.
abbrev pub InSequence : ℕ → List Form → Type 0
InSequence i [] = Unit
InSequence i (f ∷ forms) = HasIndex i f.own × All (HasIndex i) f.elements × InSequence (i + 1) forms

pub record IsValid (s : Formset) : Type 0 where
  pub sequence : InSequence 0 s.forms
  pub total : s.total_forms ≡ length s.forms
  pub index : s.next_index ≡ length s.forms
  pub add_button : s.add_shown ≡ not (is_full s.max_forms (length s.forms))
  pub delete_links : s.delete_shown ≡ not (is_minimal s.min_forms (length s.forms))

update-HasIndex : (i : ℕ) (ls : List Label) → All (HasIndex i) (map (update_element_index i) ls)
update-HasIndex i [] = tt
update-HasIndex i (l ∷ ls) = (refl, update-HasIndex i ls)

renumber-InSequence : (i : ℕ) (forms : List Form) → InSequence i (renumber i forms)
unfolding renumber
renumber-InSequence i [] = tt
renumber-InSequence i (f ∷ forms) =
    (refl, update-HasIndex i f.elements, renumber-InSequence (i + 1) forms)

pub length-renumber : (i : ℕ) (forms : List Form) → length (renumber i forms) ≡ length forms
unfolding renumber
length-renumber i [] = refl
length-renumber i (f ∷ forms) = ap suc (length-renumber (i + 1) forms)

pub length-remove_at :
    (n : ℕ) (forms : List Form) → n < length forms → suc (length (remove_at n forms)) ≡ length forms
unfolding remove_at
length-remove_at n [] h = elim h [ ]
length-remove_at zero (f ∷ forms) h = refl
length-remove_at (suc n) (f ∷ forms) h = ap suc (length-remove_at n forms (omega arith))

InSequence-append :
    (i : ℕ) (forms : List Form) (f : Form)
    → InSequence i forms
    → HasIndex (i + length forms) f.own
    → All (HasIndex (i + length forms)) f.elements
    → InSequence i (forms ++ f ∷ [])
InSequence-append i [] f h own elements = (rw add-zero at own, rw add-zero at elements, tt)
InSequence-append i (g ∷ forms) f h own elements = (
  h.0,
  h.1,
  InSequence-append (i + 1) forms f h.2 (rw (moved_on i (length forms)) at own)
      (rw (moved_on i (length forms)) at elements),
)
  where
    moved_on : (a b : ℕ) → a + suc b ≡ a + 1 + b
    moved_on a b = omega arith

add_button-grown :
    (m : Option ℕ) (k : ℕ)
    → (if is_full m (k + 1) then false else not (is_full m k)) ≡ not (is_full m (k + 1))
add_button-grown none k = refl
add_button-grown (some m) k = ground arith

-- Adding a form keeps the numbering, the counts and the buttons right.
pub add_inline-IsValid : (s : Formset) → IsValid s → IsValid (add_inline s)
unfolding add_inline
add_inline-IsValid s v =
    let grown = length-append s.forms (new_form s ∷ []) in
    record {
      sequence =
          InSequence-append 0 s.forms (new_form s) v.sequence
            (ap some (v.index ∙ sym (zero-add (length s.forms))))
            (rw (zero-add, sym v.total) (update-HasIndex s.total_forms s.template));
      total = ground (arith, v.total, grown);
      index = ground (arith, v.index, grown);
      add_button =
          rw (grown, v.total, v.add_button) (add_button-grown s.max_forms (length s.forms));
      delete_links =
          ap (λ (k : ℕ). not (is_minimal s.min_forms k)) (ground (arith, v.total, grown));
    }

add_button-shrunk :
    (m : Option ℕ) (k l : ℕ)
    → suc k ≡ l
    → (if is_full m k then not (is_full m l) else true) ≡ not (is_full m k)
add_button-shrunk none k l h = refl
add_button-shrunk (some m) k l h = ground arith

-- Deleting any of the forms renumbers the others and keeps the counts and the buttons right.
pub delete_inline-IsValid :
    (n : ℕ) (s : Formset) → n < length s.forms → IsValid s → IsValid (delete_inline n s)
unfolding delete_inline
delete_inline-IsValid n s h v = record {
  sequence = renumber-InSequence 0 (remove_at n s.forms);
  total = sym (length-renumber 0 (remove_at n s.forms));
  index =
      omega (arith, length-renumber 0 (remove_at n s.forms), length-remove_at n s.forms h, v.index);
  add_button =
      rw (v.add_button, length-renumber 0 (remove_at n s.forms))
        (add_button-shrunk s.max_forms (length (remove_at n s.forms)) (length s.forms)
          (length-remove_at n s.forms h));
  delete_links =
      ap (λ (k : ℕ). not (is_minimal s.min_forms k))
        (sym (length-renumber 0 (remove_at n s.forms)));
}
