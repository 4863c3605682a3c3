-- ===== src/NavSidebar/QuickFilter.antt =====
-- Which entries the quick filter shows, and what a new page makes of the filter that is stored.
use agentsecrets_server.Prelude.{
  ℕ, List, [], ◌∷◌, map, some, Bool, true, false, not, ◌&&◌, ◌||◌, if◌then◌else◌, ◌≡◌, ◌≢◌, ◌↔◌,
  refl, sym, ap, ◌∙◌, inl, inr, Bool-cases, All, arith,
}
use agentsecrets_server.Text.{CaseMapping}
use agentsecrets_server.Text.Search.{IsInfix, includes-IsInfix, IsInfix-includes}
use agentsecrets_server.NavSidebar.{
  Entry, Filter, is_empty, matches, check_entries, check_value, init_filter,
}

-- The page when it loads, before it looks at the stored filter.
abbrev pub shown : Entry → Entry
shown o = record o { hidden = false }

abbrev pub fresh : Filter → Filter
fresh f = record {
  entries = map shown f.entries;
  value = [];
  no_results = false;
  stored = f.stored;
}

or_false : (a b : Bool) → (a || b ≡ false) ↔ ((not a ≡ true) × (b ≡ false))
or_false true b = (λ h. cc, λ h. cc)
or_false false b = (λ h. (refl, h), λ h. h.1)

module _ (host : CaseMapping) where
  open host use {to_lower_case, settled_stays}

  abbrev marked : List ℕ → Entry → Entry
  marked v o = record o { hidden = not (is_empty v) && not (matches host v o) }

  any_match : List ℕ → List Entry → Bool
  any_match v [] = false
  any_match v (o ∷ os) = (not (is_empty v) && matches host v o) || any_match v os

  check_entries_lem :
      (v : List ℕ) (os : List Entry) → check_entries host v os ≡ (map (marked v) os, any_match v os)
  unfolding check_entries any_match
  check_entries_lem v [] = refl
  check_entries_lem v (o ∷ os) = rw (check_entries_lem v os) (elim (Bool-cases (is_empty v)) [
    | inl e ↦ rw e refl
    | inr e ↦ elim (Bool-cases (matches host v o)) [
      | inl m ↦ rw (e, m) refl
      | inr m ↦ rw (e, m) refl
    ]
  ])

  lowered_lem : (s : List ℕ) → (if is_empty s then s else to_lower_case s) ≡ to_lower_case s
  lowered_lem [] = sym (settled_stays [] tt)
  lowered_lem (c ∷ s) = refl

  abbrev checked : List ℕ → Filter → Filter
  checked v f = record {
    entries = map (marked v) f.entries;
    value = f.value;
    no_results = not (is_empty v || any_match v f.entries);
    stored = some v;
  }

  check_value_lem : (f : Filter) → check_value host false f ≡ checked (to_lower_case f.value) f
  unfolding check_value
  check_value_lem f = rw (lowered_lem, check_entries_lem) refl

  check_value-escape : (f : Filter) → check_value host true f ≡ record (checked [] f) { value = [] }
  unfolding check_value
  check_value-escape f = rw check_entries_lem refl

  -- An entry is shown exactly when its title holds the text, both in lower case.
  abbrev pub ShownFor : List ℕ → Entry → Type 0
  ShownFor v o = (o.hidden ≡ false) ↔ IsInfix v (to_lower_case o.title)

  marked-ShownFor : (v : List ℕ) (o : Entry) → ShownFor v (marked v o)
  unfolding matches
  marked-ShownFor [] o = (λ h. ([], to_lower_case o.title, refl), λ h. refl)
  marked-ShownFor (c ∷ v) o = (
    λ h. includes-IsInfix (c ∷ v) (to_lower_case o.title) (ground (arith, h)),
    λ h. rw (IsInfix-includes (c ∷ v) (to_lower_case o.title) h) refl,
  )

  All-marked : (v : List ℕ) (os : List Entry) → All (ShownFor v) (map (marked v) os)
  All-marked v [] = tt
  All-marked v (o ∷ os) = (marked-ShownFor v o, All-marked v os)

  titles_lem :
      (v : List ℕ) (os : List Entry) → map Entry.title (map (marked v) os) ≡ map Entry.title os
  titles_lem v [] = refl
  titles_lem v (o ∷ os) = ap (o.title ∷◌) (titles_lem v os)

  abbrev pub IsHidden : Entry → Type 0
  IsHidden o = o.hidden ≡ true

  any_match-IsHidden :
      (v : List ℕ) (os : List Entry)
      → v ≢ []
      → (any_match v os ≡ false) ↔ All IsHidden (map (marked v) os)
  unfolding any_match
  any_match-IsHidden [] os ne = absurd (ne refl)
  any_match-IsHidden (c ∷ v) [] ne = (λ h. tt, λ h. refl)
  any_match-IsHidden (c ∷ v) (o ∷ os) ne =
      let rest = any_match-IsHidden (c ∷ v) os ne in
      let parts = or_false (matches host (c ∷ v) o) (any_match (c ∷ v) os) in
      (λ h. ((parts.0 h).0, rest.0 (parts.0 h).1), λ h. parts.1 (h.0, rest.1 h.1))

  no_results_lem :
      (v : List ℕ) (os : List Entry)
      → (not (is_empty v || any_match v os) ≡ true) ↔ ((v ≢ []) × All IsHidden (map (marked v) os))
  no_results_lem [] os = (λ h. cc, λ h. absurd (h.0 refl))
  no_results_lem (c ∷ v) os =
      let rest = any_match-IsHidden (c ∷ v) os (λ e. cc) in
      (λ h. (λ e. cc, rest.0 (ground (arith, h))), λ h. rw (rest.1 h.1) refl)

  -- After an event that is not Escape the titles are as before; an entry is shown exactly when its
  -- title holds the text of the input, both in lower case; and the input is marked as without results
  -- exactly when its text in lower case is not empty and no entry is shown.
  pub check_value-exact :
      (f : Filter)
      → (map Entry.title (check_value host false f).entries ≡ map Entry.title f.entries)
        × All (ShownFor (to_lower_case f.value)) (check_value host false f).entries
        × (((check_value host false f).no_results ≡ true)
            ↔ ((to_lower_case f.value ≢ []) × All IsHidden (check_value host false f).entries))
  check_value-exact f =
      let v = to_lower_case f.value in
      rw check_value_lem
        (titles_lem v f.entries, All-marked v f.entries, no_results_lem v f.entries)

  map-marked_again :
      (v w : List ℕ) (os : List Entry)
      → map (marked v) (map shown (map (marked w) os)) ≡ map (marked v) os
  unfolding matches
  map-marked_again v w [] = refl
  map-marked_again v w (o ∷ os) = ap (marked v o ∷◌) (map-marked_again v w os)

  any_match_again :
      (v w : List ℕ) (os : List Entry)
      → any_match v (map shown (map (marked w) os)) ≡ any_match v os
  unfolding any_match matches
  any_match_again v w [] = refl
  any_match_again v w (o ∷ os) = rw (any_match_again v w os) refl

  map_shown : (os : List Entry) → map shown (map (marked []) os) ≡ map (marked []) os
  map_shown [] = refl
  map_shown (o ∷ os) = ap (shown o ∷◌) (map_shown os)

  abbrev reloaded : List ℕ → List Entry → Filter
  reloaded v os = record {
    entries = map shown (map (marked v) os);
    value = [];
    no_results = false;
    stored = some v;
  }

  init_filter-cons :
      (c : ℕ) (v : List ℕ) (os : List Entry)
      → init_filter host (reloaded (c ∷ v) os)
        ≡ check_value host false (record (reloaded (c ∷ v) os) { value = c ∷ v })
  unfolding init_filter
  init_filter-cons c v os = refl

  init_filter-reloaded :
      (v : List ℕ) (os : List Entry)
      → to_lower_case v ≡ v
      → ((init_filter host (reloaded v os)).entries ≡ map (marked v) os)
        × ((init_filter host (reloaded v os)).no_results ≡ not (is_empty v || any_match v os))
  unfolding init_filter any_match
  init_filter-reloaded [] os low = (map_shown os, refl)
  init_filter-reloaded (c ∷ v) os low =
      let e =
        init_filter-cons c v os
        ∙ check_value_lem (record (reloaded (c ∷ v) os) { value = c ∷ v }) in
      (
        ap Filter.entries e ∙ rw low (map-marked_again (c ∷ v) (c ∷ v) os),
        ap Filter.no_results e ∙ rw (low, any_match_again),
      )

  -- Where the host's lower case of a text in lower case is that text, a new page shows the entries
  -- that the last event has left shown, and marks the input as that event did.
  init_filter-check_value :
      (escape : Bool) (f : Filter)
      → ((s : List ℕ) → to_lower_case (to_lower_case s) ≡ to_lower_case s)
      → ((init_filter host (fresh (check_value host escape f))).entries
          ≡ (check_value host escape f).entries)
        × ((init_filter host (fresh (check_value host escape f))).no_results
            ≡ (check_value host escape f).no_results)
  init_filter-check_value true f again =
      rw check_value-escape (init_filter-reloaded [] f.entries (settled_stays [] tt))
  init_filter-check_value false f again =
      rw check_value_lem (init_filter-reloaded (to_lower_case f.value) f.entries (again f.value))
