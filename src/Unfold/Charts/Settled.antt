-- ===== src/Unfold/Charts/Settled.antt =====
-- The colors of the datasets, once they have been looked up.
use agentsecrets_server.Prelude.{
  ℕ, ◌≡◌, refl, sym, ap, ◌∙◌, false, Option, none, some, List, [], ◌∷◌, >>=-eq-some, Bool-cases,
  inl, inr,
}
use agentsecrets_server.Text.{codes}
use agentsecrets_server.Text.Search.{starts_with}
use agentsecrets_server.Unfold.Charts.{
  Color, no_color, one, many, other, css_variable, process_text, process_items, process_color,
}

module _ (property_value : List ℕ → List ℕ)
    (settled : (v : List ℕ) → starts_with (codes "var(") (property_value v) ≡ false) where
  process_text-plain :
      (t : List ℕ) → starts_with (codes "var(") t ≡ false → process_text property_value t ≡ some t
  unfolding process_text
  process_text-plain t h = rw h refl

  process_text_again :
      (s t : List ℕ)
      → process_text property_value s ≡ some t
      → process_text property_value t ≡ some t
  unfolding process_text
  process_text_again s t h = elim (Bool-cases (starts_with (codes "var(") s)) [
    | inl e ↦
        let (v, found, same) =
          >>=-eq-some (css_variable s) (λ v. some (property_value v)) (rw e at h) in
        let q : property_value v ≡ t = cc in
        process_text-plain t (ap (starts_with (codes "var(")) (sym q) ∙ settled v)
    | inr e ↦
        let plain : ◌≡◌ {A = Option (List ℕ)} (some s) (some t) = rw e at h in
        let q : s ≡ t = cc in process_text-plain t (ap (starts_with (codes "var(")) (sym q) ∙ e)
  ]

  process_items_again :
      (items colors : List (Option (List ℕ)))
      → process_items property_value items ≡ some colors
      → process_items property_value colors ≡ some colors
  unfolding process_items
  process_items_again [] [] h = refl
  process_items_again [] (c ∷ colors) h = cc
  process_items_again (none ∷ items) colors h = cc
  process_items_again (some s ∷ items) colors h =
      let (t, made, next) = >>=-eq-some (process_text property_value s) _ h in
      let (rest, others, same) = >>=-eq-some (process_items property_value items) _ next in
      let q : (some t ∷ rest) ≡ colors = cc in
      ap (process_items property_value) (sym q)
      ∙ rw (process_text_again s t made, process_items_again items rest others) (ap some q)

  -- Where no value in the style begins with `var(`, what was looked up stays as it is when the colors
  -- are looked up again.
  process_color_again :
      (c d : Color)
      → process_color property_value c ≡ some d
      → process_color property_value d ≡ some d
  unfolding process_color
  process_color_again no_color d h =
      let q : no_color ≡ d = cc in ap (process_color property_value) (sym q) ∙ ap some q
  process_color_again (one s) d h =
      let (t, made, same) = >>=-eq-some (process_text property_value s) _ h in
      let q : one t ≡ d = cc in
      ap (process_color property_value) (sym q) ∙ rw (process_text_again s t made) (ap some q)
  process_color_again (many items) d h =
      let (colors, made, same) = >>=-eq-some (process_items property_value items) _ h in
      let q : many colors ≡ d = cc in
      ap (process_color property_value) (sym q)
      ∙ rw (process_items_again items colors made) (ap some q)
  process_color_again other d h = cc
