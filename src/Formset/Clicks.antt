-- ===== src/Formset/Clicks.antt =====
-- The clicks on the buttons that are shown, and the limits that these keep.
use agentsecrets_server.Prelude.{
  ℕ, zero, suc, ◌+◌, ◌≤◌, ◌<◌, ◌≡◌, refl, sym, ap, ◌∙◌, true, false, not, Option, none, some, List,
  [], ◌∷◌, arith, length, get_elem?, length-append,
}
use agentsecrets_server.Formset.{
  Form, Formset, is_full, is_minimal, add_inline, delete_inline, init, new_form, remove_at, Label,
}
use agentsecrets_server.Formset.Sequence.{
  IsValid, InSequence, add_inline-IsValid, delete_inline-IsValid, length-renumber, length-remove_at,
}

-- A click: on the add button while it is shown, or on the delete link of a form that has one, while
-- the links are shown.
pub data Click : Formset → Formset → Type 0 where
  add_click : {s : Formset} → s.add_shown ≡ true → Click s (add_inline s)
  delete_click :
      {s : Formset} (n : ℕ) (f : Form)
      → get_elem? s.forms n ≡ some f
      → f.has_original ≡ false
      → s.delete_shown ≡ true
      → Click s (delete_inline n s)

pub data Clicks : Formset → Formset → Type 0 where
  no_click : {s : Formset} → Clicks s s
  and_then : {s t u : Formset} → Click s t → Clicks t u → Clicks s u

abbrev pub AtMost : Option ℕ → ℕ → Type 0
AtMost none k = Unit
AtMost (some m) k = k ≤ m

abbrev pub AtLeast : Option ℕ → ℕ → Type 0
AtLeast none k = Unit
AtLeast (some m) k = m ≤ k

-- A valid page whose number of forms is within both limits.
pub record IsWithin (s : Formset) : Type 0 where
  pub valid : IsValid s
  pub most : AtMost s.max_forms (length s.forms)
  pub least : AtLeast s.min_forms (length s.forms)

AtMost-suc : (m : Option ℕ) (k l : ℕ) → l ≡ k + 1 → true ≡ not (is_full m k) → AtMost m l
AtMost-suc none k l e h = tt
AtMost-suc (some m) k l e h = ground (arith, e)

AtMost-smaller : (m : Option ℕ) (k l : ℕ) → k ≤ l → AtMost m l → AtMost m k
AtMost-smaller none k l h a = tt
AtMost-smaller (some m) k l h a = omega arith

AtLeast-larger : (m : Option ℕ) (k l : ℕ) → k ≤ l → AtLeast m k → AtLeast m l
AtLeast-larger none k l h a = tt
AtLeast-larger (some m) k l h a = omega arith

AtLeast-pred : (m : Option ℕ) (k l : ℕ) → suc k ≡ l → true ≡ not (is_minimal m l) → AtLeast m k
AtLeast-pred none k l e h = tt
AtLeast-pred (some m) k l e h = ground (arith, e)

add_inline-IsWithin : (s : Formset) → IsWithin s → s.add_shown ≡ true → IsWithin (add_inline s)
unfolding add_inline
add_inline-IsWithin s w h =
    let grown = length-append s.forms (new_form s ∷ []) in
    record {
      valid = add_inline-IsValid s w.valid;
      most = AtMost-suc s.max_forms (length s.forms) _ grown (sym h ∙ w.valid.add_button);
      least = AtLeast-larger s.min_forms (length s.forms) _ (omega (arith, grown)) w.least;
    }

delete_inline-IsWithin :
    (n : ℕ) (s : Formset)
    → n < length s.forms
    → s.delete_shown ≡ true
    → IsWithin s
    → IsWithin (delete_inline n s)
unfolding delete_inline
delete_inline-IsWithin n s n_lt h w =
    let shrunk =
      ap suc (length-renumber 0 (remove_at n s.forms)) ∙ length-remove_at n s.forms n_lt in
    record {
      valid = delete_inline-IsValid n s n_lt w.valid;
      most = AtMost-smaller s.max_forms _ (length s.forms) (omega (arith, shrunk)) w.most;
      least = AtLeast-pred s.min_forms _ (length s.forms) shrunk (sym h ∙ w.valid.delete_links);
    }

get_elem?-lt {ℓ} :
    {A : Type ℓ} → (xs : List A) (n : ℕ) (x : A) → get_elem? xs n ≡ some x → n < length xs
get_elem?-lt [] n x h = cc
get_elem?-lt (y ∷ xs) zero x h = omega arith
get_elem?-lt (y ∷ xs) (suc n) x h = omega (arith, get_elem?-lt xs n x h)

Click-IsWithin : {s t : Formset} → Click s t → IsWithin s → IsWithin t
Click-IsWithin (add_click h) w = add_inline-IsWithin _ w h
Click-IsWithin (delete_click {s} n f found unsaved h) w =
    delete_inline-IsWithin n s (get_elem?-lt s.forms n f found) h w

pub init-IsValid :
    (forms : List Form) (template : List Label) (own_before : List ℕ)
    (max_forms min_forms : Option ℕ)
    → InSequence 0 forms
    → IsValid (init forms template own_before (length forms) max_forms min_forms)
unfolding init
init-IsValid forms template own_before max_forms min_forms h = record {
  sequence = h;
  total = refl;
  index = refl;
  add_button = refl;
  delete_links = refl;
}

-- From a numbered formset within its limits, whatever the clicks on the buttons that are shown, the
-- forms stay numbered in sequence, TOTAL_FORMS counts them, their number stays within both limits,
-- and the buttons are shown as the limits say.
pub Clicks-IsWithin : {s t : Formset} → Clicks s t → IsWithin s → IsWithin t
Clicks-IsWithin no_click w = w
Clicks-IsWithin (and_then c cs) w = Clicks-IsWithin cs (Click-IsWithin c w)
