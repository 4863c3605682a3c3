-- ===== src/Prepopulate.antt =====
-- staticfiles/admin/js/prepopulate.js: a field that is filled with the slug of other fields until the
-- user changes it.
mod Tests
pub mod Events
use agentsecrets_server.Prelude.{
  ℕ, zero, suc, List, [], ◌∷◌, ◌++◌, Option, Bool, true, false, if◌then◌else◌,
}
use agentsecrets_server.Text.{CaseMapping}
use agentsecrets_server.Urlify.{urlify}

-- The prepopulated field with its datum `_changed`, whether the events of the other fields are bound
-- to `populate`, and the values of these fields.
pub record Page : Type 0 where
  pub value : List ℕ
  pub changed : Bool
  pub bound : Bool
  pub dependencies : List (List ℕ)

abbrev pub is_blank : List ℕ → Bool
is_blank [] = true
is_blank (c ∷ s) = false

-- `values`: those that are not empty.
pub values_of : List (List ℕ) → List (List ℕ)
values_of [] = []
values_of (v ∷ fields) = if is_blank v then values_of fields else v ∷ values_of fields

-- `values.join(' ')`
pub join_spaces : List (List ℕ) → List ℕ
join_spaces [] = []
join_spaces (v ∷ []) = v
join_spaces (v ∷ w ∷ values) = v ++ b' ' ∷ join_spaces (w ∷ values)

-- The user changes the value of a dependent field.
unfoldable pub set_field : ℕ → List ℕ → List (List ℕ) → List (List ℕ)
set_field n v [] = []
set_field zero v (w ∷ fields) = v ∷ fields
set_field (suc n) v (w ∷ fields) = w ∷ set_field n v fields

-- `prepopulate`, on a page with these values.
unfoldable pub prepopulate : List ℕ → List (List ℕ) → Page
prepopulate value dependencies = record {
  value = value;
  changed = false;
  bound = is_blank value;
  dependencies = dependencies;
}

-- The user changes the prepopulated field.
unfoldable pub change_field : List ℕ → Page → Page
change_field value p = record p { value = value; changed = true }

module _ (host : CaseMapping) (is_letter_or_number : ℕ → Bool) (max_length : Option ℕ)
    (allow_unicode : Bool) where
  pub populate : Page → Page
  unfolding values_of join_spaces
  populate p = if p.changed then p else record p {
    value =
        urlify host is_letter_or_number (join_spaces (values_of p.dependencies)) max_length
          allow_unicode;
  }

  -- An event keyup, change or focus of a dependent field, with the value that it then has.
  unfoldable pub on_dependency : ℕ → List ℕ → Page → Page
  unfolding populate set_field
  on_dependency n v p =
      let q = record p { dependencies = set_field n v p.dependencies } in
      if q.bound then populate q else q
