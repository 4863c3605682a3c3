-- ===== src/Unfold/History/Recent.antt =====
-- The history holds no link twice and at most ten commands.
use Prim.Native.String.{String}
use text.Mathlib.Text.{◌==◌ as str_eq}
use text.Mathlib.TextEquality.{eq_iff}
use agentsecrets_server.Prelude.{
  ℕ, zero, suc, ◌≤◌, List, [], ◌∷◌, Option, Bool, true, false, not, take, keep, length, length-take,
  ◌≡◌, refl, ap, inl, inr, Bool-cases, All, All-take, All-keep_of, All-keep, All-map, arith,
}
use agentsecrets_server.Unfold.History.{Command, or_none, remove_link, add_to_history, splice_at}

abbrev pub link_ne : String → Command → Bool
link_ne link c = not (str_eq c.link link)

abbrev pub OtherLink : String → Command → Type 0
OtherLink link c = str_eq c.link link ≡ false

-- No link twice.
abbrev pub DistinctLinks : List Command → Type 0
DistinctLinks [] = Unit
DistinctLinks (c ∷ history) = All (OtherLink c.link) history × DistinctLinks history

abbrev pub IsHistory : List Command → Type 0
IsHistory history = DistinctLinks history × (length history ≤ 10)

-- The loop removes the link also where it skips a command, if no link stands twice.
remove_link-keep :
    (link : String) (history : List Command)
    → DistinctLinks history
    → remove_link link history ≡ keep (link_ne link) history
unfolding remove_link
remove_link-keep link [] h = refl
remove_link-keep link (c ∷ []) h = elim (Bool-cases (str_eq c.link link)) [
  | inl same ↦ rw (same, keep, remove_link) refl
  | inr other ↦ rw (other, keep, remove_link) refl
]
remove_link-keep link (c ∷ d ∷ history) h = elim (Bool-cases (str_eq c.link link)) [
  | inl same ↦
      rw (same, keep, remove_link)
        (rw (rw ((eq_iff c.link link).0 same) at (h.0.0), keep)
          (ap (d ∷◌) (remove_link-keep link history h.1.1)))
  | inr other ↦ rw (other, keep, remove_link) (ap (c ∷◌) (remove_link-keep link (d ∷ history) h.1))
]

keep-Distinct :
    (p : Command → Bool) (history : List Command)
    → DistinctLinks history
    → DistinctLinks (keep p history)
keep-Distinct p [] h = tt
keep-Distinct p (c ∷ history) h = elim (Bool-cases (p c)) [
  | inl e ↦ rw (e, keep) (All-keep_of (OtherLink c.link) p history h.0, keep-Distinct p history h.1)
  | inr e ↦ rw (e, keep) (keep-Distinct p history h.1)
]

take-Distinct :
    (n : ℕ) (history : List Command) → DistinctLinks history → DistinctLinks (take n history)
take-Distinct zero history h = tt
take-Distinct (suc n) [] h = tt
take-Distinct (suc n) (c ∷ history) h =
    (All-take (OtherLink c.link) n history h.0, take-Distinct n history h.1)

keep-link_ne :
    (link : String) (history : List Command) → All (OtherLink link) (keep (link_ne link) history)
keep-link_ne link history =
    All-map (λ c h. not_true (str_eq c.link link) h) (keep (link_ne link) history)
      (All-keep (link_ne link) history)
  where
    not_true : (b : Bool) → not b ≡ true → b ≡ false
    not_true true h = cc
    not_true false h = refl

splice_at-All :
    (P : Command → Type 0) (n : ℕ) (history : List Command)
    → All P history
    → All P (splice_at n history)
unfolding splice_at
splice_at-All P n [] h = tt
splice_at-All P zero (c ∷ history) h = h.1
splice_at-All P (suc n) (c ∷ history) h = (h.0, splice_at-All P n history h.1)

splice_at-IsHistory :
    (n : ℕ) (history : List Command)
    → DistinctLinks history
    → DistinctLinks (splice_at n history) × (length (splice_at n history) ≤ length history)
unfolding splice_at
splice_at-IsHistory n [] h = (tt, omega arith)
splice_at-IsHistory zero (c ∷ history) h = (h.1, omega arith)
splice_at-IsHistory (suc n) (c ∷ history) h =
    let rest = splice_at-IsHistory n history h.1 in
    ((splice_at-All (OtherLink c.link) n history h.0, rest.0), omega (arith, rest.1))

length-take_le : (n : ℕ) (history : List Command) → length (take n history) ≤ n
length-take_le n history = omega (arith, length-take n history)

-- Where the stored history holds no link twice, a command that is added stands first, then come the
-- others in their order without the one that had its link, and ten commands are kept; so no link
-- stands twice again.
pub add_to_history-recent :
    (command : Command) (stored : Option (List Command))
    → DistinctLinks (or_none stored)
    → (add_to_history command stored
        ≡ take 10 (command ∷ keep (link_ne command.link) (or_none stored)))
      × DistinctLinks (add_to_history command stored)
      × (length (add_to_history command stored) ≤ 10)
unfolding add_to_history
add_to_history-recent command stored h =
    let history = or_none stored in
    let others = keep (link_ne command.link) history in
    rw (remove_link-keep command.link history h) (
      refl,
      take-Distinct 10 (command ∷ others)
          (keep-link_ne command.link history, keep-Distinct (link_ne command.link) history h),
      length-take_le 10 (command ∷ others),
    )
