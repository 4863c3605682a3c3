-- ===== src/RelatedPopups/Names.antt =====
-- A window finds its depth and its opener's field in its name.
use mathlib.Core.Option
use agentsecrets_server.Prelude.{
  ℕ, ◌+◌, ◌<◌, List, [], ◌∷◌, ◌++◌, Option, none, some, true, false, ◌≡◌, refl, ap, ◌∙◌, length,
  length-append, arith,
}
use agentsecrets_server.Prelude.Int.{ℤ, pos, inc}
use agentsecrets_server.Text.{is_digit}
use agentsecrets_server.Text.Search.{starts_with}
use agentsecrets_server.Text.Decimal.{
  decimal, AreDigits, value-decimal, AreDigits-decimal, decimal-ne-nil,
}
use agentsecrets_server.DateFormat.{DigitsLaw}
use agentsecrets_server.RelatedPopups.{
  suffix, show_number, add_popup_index, same_text, remove_end, remove_popup_index, after_last,
  index_text, set_popup_index,
}

same_text-same : (s : List ℕ) → same_text s s ≡ true
unfolding same_text
same_text-same [] = refl
same_text-same (c ∷ s) = ground (arith, same_text-same s)

same_text-longer : (s t : List ℕ) → length t < length s → same_text s t ≡ false
unfolding same_text
same_text-longer [] t h = ground arith
same_text-longer (c ∷ s) [] h = refl
same_text-longer (c ∷ s) (d ∷ t) h = ground (arith, same_text-longer s t (omega arith))

remove_end-nil : (end : List ℕ) → remove_end end end ≡ []
unfolding remove_end
remove_end-nil [] = refl
remove_end-nil (c ∷ end) = rw (same_text-same (c ∷ end)) refl

remove_end-append : (name end : List ℕ) → remove_end end (name ++ end) ≡ name
unfolding remove_end
remove_end-append [] end = remove_end-nil end
remove_end-append (c ∷ name) end =
    rw
      (
        same_text-longer (c ∷ name ++ end) end (omega (arith, length-append name end)),
        remove_end-append name end,
      )
      refl

-- Of a name to which the index has been added, taking the index off gives the name back, whatever the
-- name ends in and whatever the index is.
pub remove_popup_index-add :
    (popup_index : Option ℤ) (name : List ℕ)
    → remove_popup_index popup_index (add_popup_index popup_index name) ≡ name
unfolding remove_popup_index add_popup_index
remove_popup_index-add popup_index name = remove_end-append name (suffix popup_index)

-- `__` stands at the start of no text of digits, and of a text after one underscore neither.
starts_with-digit :
    (c : ℕ) (s : List ℕ) → is_digit c ≡ true → starts_with (b'_' ∷ b'_' ∷ []) (c ∷ s) ≡ false
unfolding starts_with
starts_with-digit c s h = ground (arith, h)

after_last-digits : (s : List ℕ) → AreDigits s → after_last s ≡ none
unfolding after_last
after_last-digits [] h = refl
after_last-digits (c ∷ s) h = rw (after_last-digits s h.1, starts_with-digit c s h.0) refl

after_last-underscore : (s : List ℕ) → AreDigits s → after_last (b'_' ∷ s) ≡ none
unfolding after_last starts_with
after_last-underscore [] h = refl
after_last-underscore (c ∷ s) h = rw (after_last-digits (c ∷ s) h) (ground (arith, h.0))

after_last-suffix :
    (name s : List ℕ) → AreDigits s → after_last (name ++ (b'_' ∷ b'_' ∷ s)) ≡ some s
unfolding after_last starts_with
after_last-suffix [] s h = rw (after_last-underscore s h) refl
after_last-suffix (c ∷ name) s h = rw (after_last-suffix name s h) refl

show_number-inc : (n : ℕ) → show_number (Option.map inc (some (pos n))) ≡ decimal (n + 1)
unfolding show_number inc
show_number-inc n = refl

index_text-add :
    (depth : ℕ) (name : List ℕ)
    → index_text (add_popup_index (some (pos depth)) name) ≡ decimal (depth + 1)
unfolding add_popup_index suffix index_text
index_text-add depth name =
    rw
      (
        show_number-inc depth,
        index_text,
        after_last-suffix name (decimal (depth + 1)) (AreDigits-decimal (depth + 1)),
      )
      refl

-- A window that a page of some depth opens, under the name of a field, finds one more than that depth
-- in its own name, where the host's `parseInt` reads digits as their decimal value.
set_popup_index-add :
    (parse_int : List ℕ → Option ℤ) (depth : ℕ) (name : List ℕ)
    → DigitsLaw parse_int
    → set_popup_index parse_int true (add_popup_index (some (pos depth)) name)
      ≡ some (pos (depth + 1))
unfolding set_popup_index
set_popup_index-add parse_int depth name law =
    ap parse_int (index_text-add depth name)
    ∙ law (decimal (depth + 1)) (decimal-ne-nil (depth + 1)) (AreDigits-decimal (depth + 1))
    ∙ ap (λ (n : ℕ). some (pos n)) (value-decimal (depth + 1))
