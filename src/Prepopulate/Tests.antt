-- ===== src/Prepopulate/Tests.antt =====
-- A title and its slug, and the theorem on them.
use agentsecrets_server.Prelude.{
  ℕ, List, [], ◌∷◌, Bool, some, false, ◌≡◌, refl, not, ◌&&◌, if◌then◌else◌,
}
use agentsecrets_server.Text.{codes, ascii_case}
use agentsecrets_server.Prepopulate.{prepopulate, is_blank}
use agentsecrets_server.Prepopulate.Events.{
  Event, dependency_event, run, run-value, or_value, last_change, fields_after, slug_of, is_nil,
  phrase, spaced,
}

abbrev no_letters : ℕ → Bool
no_letters c = false

abbrev titled : List Event
titled =
    dependency_event 0 (codes "The Plan")
    ∷ dependency_event 1 []
    ∷ dependency_event 1 (codes "27")
    ∷ []

titled_fields : phrase (fields_after titled ([] ∷ codes "2026" ∷ [])) ≡ codes "The Plan 27"
unfolding spaced fields_after agentsecrets_server.Prepopulate.set_field
titled_fields = refl

run-value_example :
    (run ascii_case no_letters
      (some 20)
      false
      titled
      (prepopulate [] ([] ∷ codes "2026" ∷ []))).value
    ≡ or_value (last_change titled) (
        if is_blank [] && not (is_nil titled)
        then slug_of ascii_case no_letters
            (some 20)
            false
            (fields_after titled ([] ∷ codes "2026" ∷ []))
        else [])
run-value_example =
    run-value ascii_case no_letters (some 20) false titled [] ([] ∷ codes "2026" ∷ [])
