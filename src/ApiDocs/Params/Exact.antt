-- ===== src/ApiDocs/Params/Exact.antt =====
-- Which parameters are sent, and that each has the type that its control declares.
use agentsecrets_server.Prelude.{
  ℕ, List, [], ◌∷◌, Bool, true, false, ◌||◌, ◌≡◌, inl, inr, refl, sym, ap, ◌∙◌, Option, none, some,
  if◌then◌else◌, All, arith, Bool-cases, Option-cases,
}
use agentsecrets_server.Text.Search.{equal_text, equal_text_eq}
use agentsecrets_server.ApiDocs.Params.{
  Raw, text, file, Entry, Value, boolean, Parsing, Kind, integers, numbers, booleans, jsons,
  strings, others, kind_or_string, kind_of, param_of, Params, is_missing, set_param, add_entries,
  add_checkboxes, params_of,
}

-- An entry that does not make the loop throw: no file is sent for a boolean.
abbrev pub Converts : Kind → Raw → Type 0
Converts booleans (file n) = ⊥
Converts _ _ = Unit

pub contains : List ℕ → List (List ℕ) → Bool
contains name [] = false
contains name (n ∷ names) = equal_text name n || contains name names

abbrev pub or_else {ℓ} : {A : Type ℓ} → Option A → Option A → Option A
or_else none b = b
or_else (some a) b = some a

module _ {N J : Type 0} (host : Parsing N J) (types : List ℕ → List ℕ) where
  abbrev pub kind : Entry → Kind
  kind e = kind_of (kind_or_string (types e.name))

  abbrev pub flatten : Option (Option (Value N J)) → Option (Value N J)
  flatten none = none
  flatten (some v) = v

  -- The parameter of one entry.
  abbrev pub converted : Entry → Option (Value N J)
  converted e = flatten (param_of host (kind e) e.raw)

  -- The last entry of the name that gives a parameter.
  unfoldable pub last_param : List ℕ → List Entry → Option (Value N J)
  last_param name [] = none
  last_param name (e ∷ entries) =
      or_else (last_param name entries) (if equal_text name e.name then converted e else none)

  abbrev pub or_unchecked : Bool → Option (Value N J) → Option (Value N J)
  or_unchecked is_box none = if is_box then some (boolean false) else none
  or_unchecked is_box (some v) = some v

  param_of-Converts :
      (k : Kind) (r : Raw) → Converts k r → (v : Option (Value N J)) × (param_of host k r ≡ some v)
  unfolding param_of
  param_of-Converts k (text []) h = (none, refl)
  param_of-Converts integers (text (c ∷ s)) h = (_, refl)
  param_of-Converts numbers (text (c ∷ s)) h = (_, refl)
  param_of-Converts booleans (text (c ∷ s)) h = (_, refl)
  param_of-Converts jsons (text (c ∷ s)) h = (_, refl)
  param_of-Converts strings (text (c ∷ s)) h = (_, refl)
  param_of-Converts others (text (c ∷ s)) h = (_, refl)
  param_of-Converts integers (file n) h = (_, refl)
  param_of-Converts numbers (file n) h = (_, refl)
  param_of-Converts booleans (file n) h = absurd h
  param_of-Converts jsons (file n) h = (_, refl)
  param_of-Converts strings (file n) h = (_, refl)
  param_of-Converts others (file n) h = (_, refl)

  set_param-get :
      (params : Params host) (n : List ℕ) (v : Option (Value N J)) (name : List ℕ)
      → set_param host params n v name
        ≡ or_else (if equal_text name n then v else none) (params name)
  set_param-get params n none name = ground arith
  set_param-get params n (some v) name = ground arith

  or_else_assoc : (a b c : Option (Value N J)) → or_else a (or_else b c) ≡ or_else (or_else a b) c
  or_else_assoc none b c = refl
  or_else_assoc (some a) b c = refl

  or_else-none : (a : Option (Value N J)) → or_else a none ≡ a
  or_else-none none = refl
  or_else-none (some v) = refl

  add_entries_lem :
      (entries : List Entry) (params : Params host)
      → All (λ (e : Entry). Converts (kind e) e.raw) entries
      → (after : Params host) × (add_entries host types entries params ≡ some after)
        × ((name : List ℕ) → after name ≡ or_else (last_param name entries) (params name))
  unfolding add_entries last_param
  add_entries_lem [] params h = (params, refl, λ name. refl)
  add_entries_lem (e ∷ entries) params h =
      let (v, p) = param_of-Converts (kind e) e.raw h.0 in
      let (after, q, k) = add_entries_lem entries (set_param host params e.name v) h.1 in
      (
        after,
        rw p q,
        λ name.
            k name
            ∙ ap (or_else (last_param name entries)) (
                set_param-get params e.name v name
                ∙ ap
                    (λ (w : Option (Value N J)).
                      or_else (if equal_text name e.name then w else none) (params name))
                    (sym (ap flatten p)))
            ∙ or_else_assoc (last_param name entries) _ (params name),
      )

  or_unchecked_twice :
      (a b : Bool) (x : Option (Value N J))
      → or_unchecked b (or_unchecked a x) ≡ or_unchecked (a || b) x
  or_unchecked_twice true b none = refl
  or_unchecked_twice false b none = refl
  or_unchecked_twice a b (some v) = refl

  add_checkbox_lem :
      (n : List ℕ) (params : Params host) (name : List ℕ)
      → (if is_missing host (params n)
            then set_param host params n (some (boolean false))
            else params)
          name
        ≡ or_unchecked (equal_text name n) (params name)
  add_checkbox_lem n params name = elim (Bool-cases (equal_text name n)) [
    | inl e ↦
        let q : params name ≡ params n = ap params (equal_text_eq name n e) in
        elim (Option-cases (params n)) [
          | inl m ↦ rw (m, q ∙ m, e) refl
          | inr (v, m) ↦ rw (m, q ∙ m) refl
        ]
    | inr e ↦ ground (arith, e)
  ]

  add_checkboxes_lem :
      (names : List (List ℕ)) (params : Params host) (name : List ℕ)
      → add_checkboxes host names params name ≡ or_unchecked (contains name names) (params name)
  unfolding add_checkboxes contains
  add_checkboxes_lem [] params name = ground arith
  add_checkboxes_lem (n ∷ names) params name =
      add_checkboxes_lem names _ name
      ∙ ap (or_unchecked (contains name names)) (add_checkbox_lem n params name)
      ∙ or_unchecked_twice (equal_text name n) (contains name names) (params name)

  -- Where no file is sent for a boolean, the parameters are made, and a name has: the parameter of the
  -- last entry of the name that gives one; else, if a check box has the name, false; else none.
  pub params_of_exact :
      (entries : List Entry) (boxes : List (List ℕ))
      → All (λ (e : Entry). Converts (kind e) e.raw) entries
      → (params : Params host) × (params_of host types entries boxes ≡ some params)
        × ((name : List ℕ)
            → params name ≡ or_unchecked (contains name boxes) (last_param name entries))
  unfolding params_of
  params_of_exact entries boxes h =
      let (after, e, k) = add_entries_lem entries (λ name. none) h in
      (
        add_checkboxes host boxes after,
        rw e refl,
        λ name.
            add_checkboxes_lem boxes after name
            ∙ ap (or_unchecked (contains name boxes))
                (k name ∙ or_else-none (last_param name entries)),
      )
