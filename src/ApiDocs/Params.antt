-- ===== src/ApiDocs/Params.antt =====
-- api.js: the parameters that a form of the explorer sends.
pub mod Exact
pub mod Types
pub mod Declared
use agentsecrets_server.Prelude.{
  ◌>>=◌, ℕ, List, [], ◌∷◌, ◌++◌, Bool, true, false, ◌||◌, Option, none, some, map, if◌then◌else◌,
}
use agentsecrets_server.Prelude.Int.{ℤ}
use agentsecrets_server.Text.{codes}
use agentsecrets_server.Text.Search.{equal_text}

-- The value of an entry of a form: a text, or a file, by its number.
pub data Raw : Type 0 where
  text : List ℕ → Raw
  file : ℕ → Raw

-- A control of the form, as `form.elements` has it.
pub data Element : Type 0 where
  file_input : List ℕ → List ℕ → Element
  select : List ℕ → List (List ℕ) → Element
  checkbox : List ℕ → List ℕ → Bool → Element
  field : List ℕ → List ℕ → Element

pub record Entry : Type 0 where
  pub name : List ℕ
  pub raw : Raw

abbrev file_entry : List ℕ → ℕ → Entry
file_entry name number = record { name = name; raw = file number }

abbrev pub text_entry : List ℕ → List ℕ → Entry
text_entry name value = record { name = name; raw = text value }

pub element_entries : Element → List Entry
element_entries (file_input [] files) = []
element_entries (file_input (c ∷ name) files) = map (file_entry (c ∷ name)) files
element_entries (select [] values) = []
element_entries (select (c ∷ name) values) = map (text_entry (c ∷ name)) values
element_entries (checkbox [] value checked) = []
element_entries (checkbox (c ∷ name) value checked) =
    if checked then text_entry (c ∷ name) value ∷ [] else []
element_entries (field [] value) = []
element_entries (field (c ∷ name) value) = text_entry (c ∷ name) value ∷ []

-- The loop of `formEntries`.
pub entries_of : List Element → List Entry
unfolding element_entries
entries_of [] = []
entries_of (e ∷ elements) = element_entries e ++ entries_of elements

-- `browser` is what `new FormData(form).entries()` gives, where the browser has it.
unfoldable pub form_entries : Option (List Entry) → List Element → List Entry
unfolding entries_of
form_entries none elements = entries_of elements
form_entries (some entries) elements = entries

-- A parameter; `inherited` is a property that every object has.
pub data Value (N J : Type 0) : Type 0 where
  string : List ℕ → Value N J
  upload : ℕ → Value N J
  integer : ℤ → Value N J
  number : N → Value N J
  boolean : Bool → Value N J
  json : J → Value N J
  inherited : List ℕ → Value N J

-- `parseInt`, `parseFloat` (`none` is NaN), `JSON.parse` (`none` is a syntax error), `toLowerCase`.
pub record Parsing (N J : Type 0) : Type 0 where
  pub parse_int : List ℕ → Option ℤ
  pub parse_float : List ℕ → Option N
  pub parse_json : List ℕ → Option J
  pub to_lower_case : List ℕ → List ℕ

-- The types that the script tests for.
pub data Kind : Type 0 where
  integers numbers booleans jsons strings others : Kind

abbrev pub kind_or_string : List ℕ → List ℕ
kind_or_string [] = codes "string"
kind_or_string (c ∷ s) = c ∷ s

unfoldable pub kind_of : List ℕ → Kind
kind_of type =
    if equal_text type (codes "integer")
    then integers
    else if equal_text type (codes "number")
    then numbers
    else if equal_text type (codes "boolean")
    then booleans
    else if equal_text type (codes "array") || equal_text type (codes "object")
    then jsons
    else if equal_text type (codes "string")
    then strings
    else others

module _ {N J : Type 0} (host : Parsing N J) where
  open host use {parse_int, parse_float, parse_json, to_lower_case}

  abbrev pub option_value {ℓ} : {A : Type ℓ} → (A → Value N J) → Option A → Option (Value N J)
  option_value f none = none
  option_value f (some a) = some (f a)

  -- `{'true': true, 'false': false}[text]`
  pub boolean_of : List ℕ → Option (Value N J)
  boolean_of s =
      if equal_text s (codes "true")
      then some (boolean true)
      else if equal_text s (codes "false")
      then some (boolean false)
      else if equal_text s (codes "constructor") || equal_text s (codes "__proto__")
      then some (inherited s)
      else none

  -- What a file is as a text.
  abbrev pub file_text : List ℕ
  file_text = codes "[object File]"

  -- The parameter of an entry, if it gets one; the outer `none` is a `TypeError`.
  pub param_of : Kind → Raw → Option (Option (Value N J))
  unfolding boolean_of
  param_of kind (text []) = some none
  param_of integers (text (c ∷ s)) = some (option_value integer (parse_int (c ∷ s)))
  param_of numbers (text (c ∷ s)) = some (option_value number (parse_float (c ∷ s)))
  param_of booleans (text (c ∷ s)) = some (boolean_of (to_lower_case (c ∷ s)))
  param_of jsons (text (c ∷ s)) = some (option_value json (parse_json (c ∷ s)))
  param_of strings (text (c ∷ s)) = some (some (string (c ∷ s)))
  param_of others (text (c ∷ s)) = some none
  param_of integers (file n) = some (option_value integer (parse_int file_text))
  param_of numbers (file n) = some (option_value number (parse_float file_text))
  param_of booleans (file n) = none
  param_of jsons (file n) = some (option_value json (parse_json file_text))
  param_of strings (file n) = some (some (upload n))
  param_of others (file n) = some none

  -- An object of parameters, by name; no name is that of a property which every object has.
  abbrev pub Params : Type 0
  Params = List ℕ → Option (Value N J)

  abbrev pub set_param : Params → List ℕ → Option (Value N J) → Params
  set_param params name none = params
  set_param params name (some v) = λ other. if equal_text other name then some v else params other

  -- The loop over the entries; `types` gives the attribute `data-type` of the first control with the
  -- name, empty where it is missing.
  pub add_entries : (List ℕ → List ℕ) → List Entry → Params → Option Params
  unfolding param_of kind_of
  add_entries types [] params = some params
  add_entries types (e ∷ entries) params = do
    v ← param_of (kind_of (kind_or_string (types e.name))) e.raw
    add_entries types entries (set_param params e.name v)

  abbrev pub is_missing : Option (Value N J) → Bool
  is_missing none = true
  is_missing (some v) = false

  -- The loop over the check boxes, by their names.
  pub add_checkboxes : List (List ℕ) → Params → Params
  add_checkboxes [] params = params
  add_checkboxes (name ∷ names) params =
      add_checkboxes names
        (if is_missing (params name) then set_param params name (some (boolean false)) else params)

  unfoldable pub params_of : (List ℕ → List ℕ) → List Entry → List (List ℕ) → Option Params
  unfolding add_entries add_checkboxes
  params_of types entries boxes = do
    params ← add_entries types entries (λ name. none)
    some (add_checkboxes boxes params)
