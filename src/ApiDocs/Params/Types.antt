-- ===== src/ApiDocs/Params/Types.antt =====
-- Each parameter is what the type of its control makes of the text of an entry.
use agentsecrets_server.Prelude.{
  ℕ, List, [], ◌∷◌, Bool, true, false, ◌≡◌, ◌⊎◌, inl, inr, refl, sym, ap, ◌∙◌, Option, none, some,
  if◌then◌else◌, All, Bool-cases, Option-cases, get_elem?, suc,
}
use agentsecrets_server.ApiDocs.Params.Declared.{
  IsDeclared, inner, param_of-kind, kind_of_value-IsDeclared,
}
use mathlib.Core.Path.{subst}
use mathlib.Core.Option.{some-injective}
use agentsecrets_server.Text.{codes}
use agentsecrets_server.Text.Search.{equal_text, equal_text_eq}
use agentsecrets_server.ApiDocs.Params.{
  Raw, text, file, Entry, Value, string, upload, integer, number, boolean, json, inherited, Parsing,
  Kind, integers, numbers, booleans, jsons, strings, others, boolean_of, param_of, Params,
  params_of, option_value,
}
use agentsecrets_server.ApiDocs.Params.Exact.{
  Converts, kind, contains, last_param, or_else, or_unchecked, params_of_exact, converted, flatten,
}

module _ {N J : Type 0} (host : Parsing N J) (types : List ℕ → List ℕ) where
  -- The text of an entry; that of a file is what every object is as a text.
  abbrev pub raw_text : Raw → List ℕ
  raw_text (text s) = s
  raw_text (file n) = codes "[object File]"

  -- What the value says of the entry that it is made of.
  abbrev Gives : Raw → Value N J → Type 0
  Gives r (string s) = r ≡ text s
  Gives r (upload n) = r ≡ file n
  Gives r (integer z) = host.parse_int (raw_text r) ≡ some z
  Gives r (number x) = host.parse_float (raw_text r) ≡ some x
  Gives r (boolean true) = host.to_lower_case (raw_text r) ≡ codes "true"
  Gives r (boolean false) = host.to_lower_case (raw_text r) ≡ codes "false"
  Gives r (json j) = host.parse_json (raw_text r) ≡ some j
  Gives r (inherited s) =
      (host.to_lower_case (raw_text r) ≡ s) × ((s ≡ codes "constructor") ⊎ (s ≡ codes "__proto__"))

  -- A value that an entry gives under a type.
  abbrev IsRead : List ℕ → Raw → Value N J → Type 0
  IsRead type r v = IsDeclared type v × Gives r v

  none-some : {v : Value N J} → ◌≡◌ {A = Option (Value N J)} none (some v) → ⊥
  none-some h = cc

  string-Gives :
      (r : Raw) (w v : Value N J)
      → Gives r w
      → ◌≡◌ {A = Option (Value N J)} (some w) (some v)
      → Gives r v
  string-Gives r w v given h = subst (Gives r) (some-injective _ _ h) given

  boolean_of-Gives :
      (r : Raw) (v : Value N J)
      → boolean_of host (host.to_lower_case (raw_text r)) ≡ some v
      → Gives r v
  unfolding boolean_of
  boolean_of-Gives r v h =
      let s = host.to_lower_case (raw_text r) in
      elim (Bool-cases (equal_text s (codes "true"))) [
        | inl as_true ↦
            string-Gives r (boolean true) v (equal_text_eq s _ as_true) (rw as_true at h)
        | inr other ↦ elim (Bool-cases (equal_text s (codes "false"))) [
          | inl as_false ↦
              string-Gives r (boolean false) v (equal_text_eq s _ as_false)
                (rw (other, as_false) at h)
          | inr neither ↦ elim (Bool-cases (equal_text s (codes "constructor"))) [
            | inl c ↦
                string-Gives r (inherited s) v (refl, inl (equal_text_eq s _ c))
                  (rw (other, neither, c) at h)
            | inr not_c ↦ elim (Bool-cases (equal_text s (codes "__proto__"))) [
              | inl p ↦
                  string-Gives r (inherited s) v (refl, inr (equal_text_eq s _ p))
                    (rw (other, neither, not_c, p) at h)
              | inr not_p ↦ absurd (none-some (rw (other, neither, not_c, not_p) at h))
            ]
          ]
        ]
      ]

  option_value-Gives :
      {A : Type 0} (f : A → Value N J) (r : Raw) (o : Option A) (v : Value N J)
      → ((a : A) → o ≡ some a → Gives r (f a))
      → option_value host f o ≡ some v
      → Gives r v
  option_value-Gives f r none v given h = cc
  option_value-Gives f r (some a) v given h = subst (Gives r) (some-injective _ _ h) (given a refl)

  param_of-Gives :
      (k : Kind) (r : Raw) (v : Value N J) → param_of host k r ≡ some (some v) → Gives r v
  unfolding param_of
  param_of-Gives k (text []) v h = cc
  param_of-Gives integers (text (c ∷ s)) v h =
      option_value-Gives integer (text (c ∷ s)) _ v (λ a e. e) (inner host h)
  param_of-Gives numbers (text (c ∷ s)) v h =
      option_value-Gives number (text (c ∷ s)) _ v (λ a e. e) (inner host h)
  param_of-Gives booleans (text (c ∷ s)) v h = boolean_of-Gives (text (c ∷ s)) v (inner host h)
  param_of-Gives jsons (text (c ∷ s)) v h =
      option_value-Gives json (text (c ∷ s)) _ v (λ a e. e) (inner host h)
  param_of-Gives strings (text (c ∷ s)) v h =
      string-Gives (text (c ∷ s)) (string (c ∷ s)) v refl (inner host h)
  param_of-Gives others (text (c ∷ s)) v h = cc
  param_of-Gives integers (file n) v h =
      option_value-Gives integer (file n) _ v (λ a e. e) (inner host h)
  param_of-Gives numbers (file n) v h =
      option_value-Gives number (file n) _ v (λ a e. e) (inner host h)
  param_of-Gives booleans (file n) v h = cc
  param_of-Gives jsons (file n) v h = option_value-Gives json (file n) _ v (λ a e. e) (inner host h)
  param_of-Gives strings (file n) v h = string-Gives (file n) (upload n) v refl (inner host h)
  param_of-Gives others (file n) v h = cc

  converted-IsRead :
      (e : Entry) (v : Value N J) → converted host types e ≡ some v → IsRead (types e.name) e.raw v
  converted-IsRead e v h = elim (Option-cases (param_of host (kind host types e) e.raw)) [
    | inl m ↦ absurd (none-some (sym (ap (flatten host types) m) ∙ h))
    | inr (w, m) ↦
        let made = m ∙ ap some (sym (ap (flatten host types) m) ∙ h) in
        (
          kind_of_value-IsDeclared host (types e.name) v
              (param_of-kind host (kind host types e) e.raw v made),
          param_of-Gives (kind host types e) e.raw v made,
        )
  ]

  or_else-eq :
      (a b : Option (Value N J)) (v : Value N J)
      → or_else a b ≡ some v
      → (a ≡ some v) ⊎ (b ≡ some v)
  or_else-eq none b v h = inr h
  or_else-eq (some w) b v h = inl h

  if_some :
      (c : Bool) (o : Option (Value N J)) (v : Value N J)
      → (if c then o else none) ≡ some v
      → (c ≡ true) × (o ≡ some v)
  if_some true o v h = (refl, h)
  if_some false o v h = absurd (none-some h)

  or_unchecked-eq :
      (c : Bool) (o : Option (Value N J)) (v : Value N J)
      → or_unchecked host types c o ≡ some v
      → (o ≡ some v) ⊎ ((c ≡ true) × (v ≡ boolean false))
  or_unchecked-eq true none v h = inr (refl, cc)
  or_unchecked-eq false none v h = absurd (none-some h)
  or_unchecked-eq c (some w) v h = inl h

  -- The value is read from an entry of the name.
  abbrev pub IsReadFrom : List Entry → List ℕ → Value N J → Type 0
  IsReadFrom entries name v =
      (i : ℕ) × (e : Entry) × (get_elem? entries i ≡ some e)
      × (name ≡ e.name)
      × IsRead (types name) e.raw v

  last_param-IsReadFrom :
      (name : List ℕ) (entries : List Entry) (v : Value N J)
      → last_param host types name entries ≡ some v
      → IsReadFrom entries name v
  unfolding last_param
  last_param-IsReadFrom name [] v h = absurd (none-some h)
  last_param-IsReadFrom name (e ∷ entries) v h =
      elim (or_else-eq (last_param host types name entries) _ v h) [
        | inl later ↦
            let (i, other, at, same, read) = last_param-IsReadFrom name entries v later in
            (suc i, other, at, same, read)
        | inr this ↦
            let (same, made) = if_some (equal_text name e.name) (converted host types e) v this in
            let eq = equal_text_eq name e.name same in
            (
              0,
              e,
              refl,
              eq,
              subst (λ (n : List ℕ). IsRead (types n) e.raw v) (sym eq) (converted-IsRead e v made),
            )
      ]

  -- Where no entry makes the conversion throw: each parameter that is made is read from an entry of its
  -- name under the type that the first control of the name declares, or is false and has the name of a
  -- check box. Read as an integer or a number it is what the host's parser gives for the entry's text,
  -- as an array or an object whatever `JSON.parse` gives, as a string the text or the file itself; as a
  -- boolean it is true or false where the text in lower case is that word, and else the property that
  -- every object has under the text `constructor` or `__proto__`.
  pub params_of-IsReadFrom :
      (entries : List Entry) (boxes : List (List ℕ))
      → All (λ (e : Entry). Converts (kind host types e) e.raw) entries
      → (params : Params host) × (params_of host types entries boxes ≡ some params)
        × ((name : List ℕ) (v : Value N J)
            → params name ≡ some v
            → IsReadFrom entries name v ⊎ ((contains name boxes ≡ true) × (v ≡ boolean false)))
  params_of-IsReadFrom entries boxes h =
      let (params, made, exact) = params_of_exact host types entries boxes h in
      (
        params,
        made,
        λ name v same. elim (or_unchecked-eq (contains name boxes) _ v (sym (exact name) ∙ same)) [
          | inl given ↦ inl (last_param-IsReadFrom name entries v given)
          | inr box ↦ inr box
        ],
      )
