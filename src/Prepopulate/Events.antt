-- ===== src/Prepopulate/Events.antt =====
-- What any events leave in the field.
use agentsecrets_server.Prelude.{
  ℕ, List, [], ◌∷◌, Option, some, none, Bool, true, false, ◌≡◌, refl, ◌⊎◌, inl, inr, Bool-cases,
  All, ◌∙◌, ◌++◌, ◌&&◌, not, drop, sym, ap, if◌then◌else◌,
}
use mathlib.Core.List.{append-nil}
use agentsecrets_server.Text.{CaseMapping}
use agentsecrets_server.Urlify.{urlify}
use agentsecrets_server.Prepopulate.{
  set_field, is_blank, Page, prepopulate, change_field, populate, on_dependency, values_of,
  join_spaces,
}

pub data Event : Type 0 where
  dependency_event : ℕ → List ℕ → Event
  field_changed : List ℕ → Event

abbrev pub or_value : Option (List ℕ) → List ℕ → List ℕ
or_value none other = other
or_value (some v) other = v

-- What the user last wrote into the prepopulated field.
pub last_change : List Event → Option (List ℕ)
last_change [] = none
last_change (field_changed v ∷ events) = some (or_value (last_change events) v)
last_change (dependency_event n v ∷ events) = last_change events

-- The other fields after the events.
unfoldable pub fields_after : List Event → List (List ℕ) → List (List ℕ)
fields_after [] fields = fields
fields_after (field_changed v ∷ events) fields = fields_after events fields
fields_after (dependency_event n v ∷ events) fields = fields_after events (set_field n v fields)

-- Each value that is not empty after a space, and no space before the first.
unfoldable pub spaced : List (List ℕ) → List ℕ
spaced [] = []
spaced ([] ∷ fields) = spaced fields
spaced ((c ∷ v) ∷ fields) = b' ' ∷ (c ∷ v) ++ spaced fields

abbrev pub phrase : List (List ℕ) → List ℕ
phrase fields = drop 1 (spaced fields)

abbrev pub is_nil : List Event → Bool
is_nil [] = true
is_nil (e ∷ events) = false

spaced-values_of : (fields : List (List ℕ)) → spaced fields ≡ spaced (values_of fields)
unfolding spaced values_of
spaced-values_of [] = refl
spaced-values_of ([] ∷ fields) = spaced-values_of fields
spaced-values_of ((c ∷ v) ∷ fields) =
    ap (λ (s : List ℕ). b' ' ∷ (c ∷ v) ++ s) (spaced-values_of fields)

AreFilled-values_of :
    (fields : List (List ℕ)) → All (λ (v : List ℕ). is_blank v ≡ false) (values_of fields)
unfolding values_of
AreFilled-values_of [] = tt
AreFilled-values_of ([] ∷ fields) = AreFilled-values_of fields
AreFilled-values_of ((c ∷ v) ∷ fields) = (refl, AreFilled-values_of fields)

-- The first value, and then a space before each of the others.
join_spaces-cons :
    (v : List ℕ) (values : List (List ℕ))
    → All (λ (w : List ℕ). is_blank w ≡ false) values
    → join_spaces (v ∷ values) ≡ v ++ spaced values
unfolding join_spaces spaced
join_spaces-cons v [] h = sym (append-nil v)
join_spaces-cons v ([] ∷ values) h = cc h.0
join_spaces-cons v ((c ∷ w) ∷ values) h =
    ap (λ (s : List ℕ). v ++ b' ' ∷ s) (join_spaces-cons (c ∷ w) values h.1)

join_spaces-spaced :
    (values : List (List ℕ))
    → All (λ (w : List ℕ). is_blank w ≡ false) values
    → join_spaces values ≡ drop 1 (spaced values)
join_spaces-spaced [] h = unfold join_spaces in unfold spaced in refl
join_spaces-spaced ([] ∷ values) h = cc h.0
join_spaces-spaced ((c ∷ v) ∷ values) h =
    join_spaces-cons (c ∷ v) values h.1 ∙ unfold spaced in refl

join_spaces-phrase : (fields : List (List ℕ)) → join_spaces (values_of fields) ≡ phrase fields
join_spaces-phrase fields =
    join_spaces-spaced (values_of fields) (AreFilled-values_of fields)
    ∙ ap (drop 1) (sym (spaced-values_of fields))

module _ (host : CaseMapping) (is_letter_or_number : ℕ → Bool) (max_length : Option ℕ)
    (allow_unicode : Bool) where
  abbrev pub handle : Event → Page → Page
  handle (dependency_event n v) p =
      on_dependency host is_letter_or_number max_length allow_unicode n v p
  handle (field_changed v) p = change_field v p

  abbrev pub run : List Event → Page → Page
  run [] p = p
  run (e ∷ events) p = run events (handle e p)

  -- The slug of some fields.
  abbrev pub slug_of : List (List ℕ) → List ℕ
  slug_of fields = urlify host is_letter_or_number (phrase fields) max_length allow_unicode

  -- Events of the other fields leave the value.
  abbrev IsKept : Page → Type 0
  IsKept p = (p.bound ≡ false) ⊎ (p.changed ≡ true)

  on_dependency-IsKept :
      (n : ℕ) (v : List ℕ) (p : Page)
      → IsKept p
      → IsKept (handle (dependency_event n v) p)
        × ((handle (dependency_event n v) p).value ≡ p.value)
  unfolding on_dependency populate
  on_dependency-IsKept n v p (inl unbound) = rw unbound (inl refl, refl)
  on_dependency-IsKept n v p (inr changed) = elim (Bool-cases p.bound) [
    | inl b ↦ rw (b, changed) (inr refl, refl)
    | inr b ↦ rw (b, changed) (inr refl, refl)
  ]

  run-kept :
      (events : List Event) (p : Page)
      → IsKept p
      → (run events p).value ≡ or_value (last_change events) p.value
  unfolding last_change change_field
  run-kept [] p h = refl
  run-kept (field_changed v ∷ events) p h = run-kept events (change_field v p) (inr refl)
  run-kept (dependency_event n v ∷ events) p h =
      let next = on_dependency-IsKept n v p h in
      run-kept events (handle (dependency_event n v) p) next.0
      ∙ ap (or_value (last_change events)) next.1

  on_dependency-follows :
      (n : ℕ) (v : List ℕ) (p : Page)
      → p.bound ≡ true
      → p.changed ≡ false
      → handle (dependency_event n v) p ≡ record p {
        dependencies = set_field n v p.dependencies;
        value = slug_of (set_field n v p.dependencies);
      }
  unfolding on_dependency populate
  on_dependency-follows n v p bound changed =
      rw (bound, changed, join_spaces-phrase (set_field n v p.dependencies)) refl

  run-follows :
      (events : List Event) (p : Page)
      → p.bound ≡ true
      → p.changed ≡ false
      → (run events p).value
        ≡ or_value
            (last_change events)
            (if is_nil events then p.value else slug_of (fields_after events p.dependencies))
  unfolding last_change fields_after change_field
  run-follows [] p bound changed = refl
  run-follows (field_changed v ∷ events) p bound changed =
      run-kept events (change_field v p) (inr refl)
  run-follows (dependency_event n v ∷ events) p bound changed =
      ap (λ (q : Page). (run events q).value) (on_dependency-follows n v p bound changed)
      ∙ run-follows events
          (record p {
            dependencies = set_field n v p.dependencies;
            value = slug_of (set_field n v p.dependencies);
          })
          bound changed
      ∙ ap (or_value (last_change events)) (same events (set_field n v p.dependencies))
    where
      same :
          (events : List Event) (fields : List (List ℕ))
          → (if is_nil events then slug_of fields else slug_of (fields_after events fields))
            ≡ slug_of (fields_after events fields)
      same [] fields = refl
      same (e ∷ events) fields = refl

  -- After any events on a page that was loaded: the field holds what the user last wrote into it. If
  -- the user has not, it holds the slug of the other fields as they then are, their values that are not
  -- empty with spaces between them, where it was empty when the page was loaded and some other field
  -- had an event; else it holds what it was loaded with.
  pub run-value :
      (events : List Event) (value : List ℕ) (dependencies : List (List ℕ))
      → (run events (prepopulate value dependencies)).value
        ≡ or_value (last_change events) (
            if is_blank value && not (is_nil events)
            then slug_of (fields_after events dependencies)
            else value)
  unfolding prepopulate
  run-value [] [] dependencies = run-follows [] (prepopulate [] dependencies) refl refl
  run-value (e ∷ events) [] dependencies =
      run-follows (e ∷ events) (prepopulate [] dependencies) refl refl
  run-value events (c ∷ value) dependencies =
      run-kept events (prepopulate (c ∷ value) dependencies) (inl refl)
