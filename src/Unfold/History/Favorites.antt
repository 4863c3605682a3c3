-- ===== src/Unfold/History/Favorites.antt =====
-- The favorites stand first once one has been toggled.
use agentsecrets_server.Prelude.{
  ℕ, zero, suc, List, [], ◌∷◌, ◌++◌, Option, none, some, Bool, true, false, not, keep, take, drop,
  get_elem?, ◌≡◌, refl, sym, ap, ◌∙◌, inl, inr, Bool-cases, All, All-keep, arith,
}
use mathlib.Core.Path.{ap₂}
use agentsecrets_server.Prelude.Sort.{insert, sort}
use agentsecrets_server.Unfold.History.{
  Command, or_none, toggled, toggle_at, is_after, toggle_favorite,
}

abbrev pub is_favorite : Command → Bool
is_favorite c = c.favorite

abbrev pub is_other : Command → Bool
is_other c = not c.favorite

-- The favorites in their order, and then the others in theirs.
abbrev pub favorites_first : List Command → List Command
favorites_first history = keep is_favorite history ++ keep is_other history

insert-favorite :
    (c : Command) (history : List Command)
    → c.favorite ≡ true
    → insert is_after c history ≡ c ∷ history
unfolding insert
insert-favorite c [] h = refl
insert-favorite c (d ∷ history) h = ground (arith, h)

insert-passes :
    (c f : Command) (rest : List Command)
    → c.favorite ≡ false
    → f.favorite ≡ true
    → insert is_after c (f ∷ rest) ≡ f ∷ insert is_after c rest
unfolding insert
insert-passes c f rest h k = ground (arith, h, k)

insert-other :
    (c : Command) (fs os : List Command)
    → c.favorite ≡ false
    → All (λ (d : Command). d.favorite ≡ true) fs
    → All (λ (d : Command). not d.favorite ≡ true) os
    → insert is_after c (fs ++ os) ≡ fs ++ c ∷ os
unfolding insert
insert-other c [] [] h fav oth = refl
insert-other c [] (o ∷ os) h fav oth = ground (arith, h, oth.0)
insert-other c (f ∷ fs) os h fav oth =
    insert-passes c f (fs ++ os) h fav.0 ∙ ap (f ∷◌) (insert-other c fs os h fav.1 oth)

keep-true :
    (p : Command → Bool) (c : Command) (history : List Command)
    → p c ≡ true
    → keep p (c ∷ history) ≡ c ∷ keep p history
keep-true p c history h = rw (h, keep) refl

keep-false :
    (p : Command → Bool) (c : Command) (history : List Command)
    → p c ≡ false
    → keep p (c ∷ history) ≡ keep p history
keep-false p c history h = rw (h, keep) refl

sort-favorites : (history : List Command) → sort is_after history ≡ favorites_first history
unfolding sort
sort-favorites [] = refl
sort-favorites (c ∷ history) = elim (Bool-cases c.favorite) [
  | inl fav ↦
      ap (insert is_after c) (sort-favorites history)
      ∙ insert-favorite c (favorites_first history) fav
      ∙ sym (
          ap₂ ◌++◌ (keep-true is_favorite c history fav)
            (keep-false is_other c history (ap not fav)))
  | inr other ↦
      ap (insert is_after c) (sort-favorites history)
      ∙ insert-other c (keep is_favorite history) (keep is_other history) other
          (All-keep is_favorite history) (All-keep is_other history)
      ∙ sym (
          ap₂ ◌++◌ (keep-false is_favorite c history other)
            (keep-true is_other c history (ap not other)))
]

the_command : (c d : Command) → some c ≡ some d → c ≡ d
the_command c d h = cc h

toggle_at-some :
    (index : ℕ) (history : List Command) (c : Command)
    → get_elem? history index ≡ some c
    → toggle_at index history ≡ some (take index history ++ toggled c ∷ drop (suc index) history)
unfolding toggle_at
toggle_at-some index [] c h = cc
toggle_at-some zero (d ∷ history) c h =
    ap (λ (e : Command). some (toggled e ∷ history)) (the_command d c h)
toggle_at-some (suc index) (d ∷ history) c h = rw (toggle_at-some index history c h) refl

toggle_at-none :
    (index : ℕ) (history : List Command)
    → get_elem? history index ≡ none
    → toggle_at index history ≡ none
unfolding toggle_at
toggle_at-none index [] h = refl
toggle_at-none zero (d ∷ history) h = cc
toggle_at-none (suc index) (d ∷ history) h = rw (toggle_at-none index history h) refl

-- Toggling a command that the stored history holds gives the history with this command toggled, the
-- favorites first and all else in the order it had; toggling a number that it does not hold throws.
pub toggle_favorite-exact :
    (index : ℕ) (stored : Option (List Command))
    → ((c : Command)
        → get_elem? (or_none stored) index ≡ some c
        → toggle_favorite index stored
          ≡ some (
              favorites_first
                (take index (or_none stored) ++ toggled c ∷ drop (suc index) (or_none stored))))
      × (get_elem? (or_none stored) index ≡ none → toggle_favorite index stored ≡ none)
unfolding toggle_favorite
toggle_favorite-exact index stored = (
  λ c h. rw (toggle_at-some index (or_none stored) c h) (
      ap some (
        sort-favorites
          (take index (or_none stored) ++ toggled c ∷ drop (suc index) (or_none stored)))),
  λ h. rw (toggle_at-none index (or_none stored) h) refl,
)
