-- ===== src/ApiDocs/Params/Declared.antt =====
-- api.js: the types under which a value of each kind is made.
use agentsecrets_server.Prelude.{
  ℕ, List, [], ◌∷◌, false, ◌≡◌, ◌⊎◌, inl, inr, refl, sym, ap, ◌∙◌, Option, none, some, arith,
  Bool-cases, ◌==◌,
}
use mathlib.Core.Path.{subst}
use agentsecrets_server.Text.{codes}
use agentsecrets_server.Text.Search.{equal_text, equal_text_eq}
use agentsecrets_server.ApiDocs.Params.{
  Raw, text, file, Value, string, upload, integer, number, boolean, json, inherited, Parsing, Kind,
  integers, numbers, booleans, jsons, strings, others, kind_or_string, kind_of, boolean_of,
  param_of, option_value,
}

-- The types, as the attribute `data-type` writes them, of the controls whose conversion makes such a
-- value; without one a control is a string.
abbrev pub IsDeclared : {N J : Type 0} → List ℕ → Value N J → Type 0
IsDeclared type (string s) = (type ≡ codes "string") ⊎ (type ≡ [])
IsDeclared type (upload n) = (type ≡ codes "string") ⊎ (type ≡ [])
IsDeclared type (integer z) = type ≡ codes "integer"
IsDeclared type (number n) = type ≡ codes "number"
IsDeclared type (boolean b) = type ≡ codes "boolean"
IsDeclared type (inherited s) = type ≡ codes "boolean"
IsDeclared type (json j) = (type ≡ codes "array") ⊎ (type ≡ codes "object")

abbrev Names : Kind → List ℕ → Type 0
Names integers type = type ≡ codes "integer"
Names numbers type = type ≡ codes "number"
Names booleans type = type ≡ codes "boolean"
Names jsons type = (type ≡ codes "array") ⊎ (type ≡ codes "object")
Names strings type = type ≡ codes "string"
Names others type = Unit

kind_of-Names : (type : List ℕ) → Names (kind_of type) type
unfolding kind_of
kind_of-Names type = elim (Bool-cases (equal_text type (codes "integer"))) [
  | inl e ↦ rw e (equal_text_eq type _ e)
  | inr e ↦ rw e (elim (Bool-cases (equal_text type (codes "number"))) [
    | inl f ↦ rw f (equal_text_eq type _ f)
    | inr f ↦ rw f (elim (Bool-cases (equal_text type (codes "boolean"))) [
      | inl g ↦ rw g (equal_text_eq type _ g)
      | inr g ↦ rw g (elim (Bool-cases (equal_text type (codes "array"))) [
        | inl h ↦ rw h (inl (equal_text_eq type _ h))
        | inr h ↦ rw h (elim (Bool-cases (equal_text type (codes "object"))) [
          | inl i ↦ rw i (inr (equal_text_eq type _ i))
          | inr i ↦ rw i (elim (Bool-cases (equal_text type (codes "string"))) [
            | inl j ↦ rw j (equal_text_eq type _ j)
            | inr j ↦ rw j tt
          ])
        ])
      ])
    ])
  ])
]

-- The kind of a value.
abbrev pub kind_of_value : {N J : Type 0} → Value N J → Kind
kind_of_value (string s) = strings
kind_of_value (upload n) = strings
kind_of_value (integer z) = integers
kind_of_value (number n) = numbers
kind_of_value (boolean b) = booleans
kind_of_value (inherited s) = booleans
kind_of_value (json j) = jsons

abbrev first : List ℕ → ℕ
first [] = 0
first (c ∷ s) = c

string_not : (s : List ℕ) → codes "string" ≡ s → (first s == 115) ≡ false → ⊥
string_not s same other = cc (ap (λ (t : List ℕ). first t == 115) same, other)

Names-IsDeclared :
    {N J : Type 0} (type : List ℕ) (v : Value N J)
    → Names (kind_of_value v) (kind_or_string type)
    → IsDeclared type v
Names-IsDeclared [] (string s) h = inr refl
Names-IsDeclared (c ∷ t) (string s) h = inl h
Names-IsDeclared [] (upload n) h = inr refl
Names-IsDeclared (c ∷ t) (upload n) h = inl h
Names-IsDeclared [] (integer z) h = absurd (string_not (codes "integer") h refl)
Names-IsDeclared (c ∷ t) (integer z) h = h
Names-IsDeclared [] (number n) h = absurd (string_not (codes "number") h refl)
Names-IsDeclared (c ∷ t) (number n) h = h
Names-IsDeclared [] (boolean b) h = absurd (string_not (codes "boolean") h refl)
Names-IsDeclared (c ∷ t) (boolean b) h = h
Names-IsDeclared [] (inherited s) h = absurd (string_not (codes "boolean") h refl)
Names-IsDeclared (c ∷ t) (inherited s) h = h
Names-IsDeclared [] (json j) (inl h) = absurd (string_not (codes "array") h refl)
Names-IsDeclared [] (json j) (inr h) = absurd (string_not (codes "object") h refl)
Names-IsDeclared (c ∷ t) (json j) h = h

module _ {N J : Type 0} (host : Parsing N J) where
  boolean_of-kind :
      (s : List ℕ) (v : Value N J) → boolean_of host s ≡ some v → booleans ≡ kind_of_value v
  unfolding boolean_of
  boolean_of-kind s (boolean b) h = refl
  boolean_of-kind s (inherited t) h = refl
  boolean_of-kind s _ h = ground arith

  abbrev kind_of_some : Option (Value N J) → Kind → Kind
  kind_of_some none k = k
  kind_of_some (some v) k = kind_of_value v

  option_value-kind :
      {A : Type 0} (f : A → Value N J) (k : Kind) (o : Option A) (v : Value N J)
      → ((a : A) → kind_of_value (f a) ≡ k)
      → option_value host f o ≡ some v
      → k ≡ kind_of_value v
  option_value-kind f k none v same h = cc
  option_value-kind f k (some a) v same h =
      sym (same a) ∙ ap (λ (o : Option (Value N J)). kind_of_some o (kind_of_value v)) h

  abbrev unwrap : Option (Option (Value N J)) → Option (Value N J)
  unwrap none = none
  unwrap (some o) = o

  pub inner :
      {o p : Option (Value N J)} → ◌≡◌ {A = Option (Option (Value N J))} (some o) (some p) → o ≡ p
  inner h = ap unwrap h

  pub param_of-kind :
      (k : Kind) (r : Raw) (v : Value N J) → param_of host k r ≡ some (some v) → k ≡ kind_of_value v
  unfolding param_of
  param_of-kind k (text []) v h = cc
  param_of-kind integers (text (c ∷ s)) v h = option_value-kind integer _ _ v (λ a. refl) (inner h)
  param_of-kind numbers (text (c ∷ s)) v h = option_value-kind number _ _ v (λ a. refl) (inner h)
  param_of-kind booleans (text (c ∷ s)) v h =
      boolean_of-kind (host.to_lower_case (c ∷ s)) v (inner h)
  param_of-kind jsons (text (c ∷ s)) v h = option_value-kind json _ _ v (λ a. refl) (inner h)
  param_of-kind strings (text (c ∷ s)) v h =
      ap (λ (o : Option (Value N J)). kind_of_some o strings) (inner h)
  param_of-kind others (text (c ∷ s)) v h = cc
  param_of-kind integers (file n) v h = option_value-kind integer _ _ v (λ a. refl) (inner h)
  param_of-kind numbers (file n) v h = option_value-kind number _ _ v (λ a. refl) (inner h)
  param_of-kind booleans (file n) v h = cc
  param_of-kind jsons (file n) v h = option_value-kind json _ _ v (λ a. refl) (inner h)
  param_of-kind strings (file n) v h =
      ap (λ (o : Option (Value N J)). kind_of_some o strings) (inner h)
  param_of-kind others (file n) v h = cc

  pub kind_of_value-IsDeclared :
      (type : List ℕ) (v : Value N J)
      → kind_of (kind_or_string type) ≡ kind_of_value v
      → IsDeclared type v
  kind_of_value-IsDeclared type v h =
      Names-IsDeclared type v (
        subst (λ (k : Kind). Names k (kind_or_string type)) h (kind_of-Names (kind_or_string type)))
