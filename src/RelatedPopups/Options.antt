-- ===== src/RelatedPopups/Options.antt =====
-- RelatedObjectLookups.js: what the windows that add, change or delete an object write into the
-- selects of the page that opened them. `none` is a `TypeError`. What the browser itself selects in a
-- list is not modelled.
pub mod Related
use Prim.Native.String.{String}
use text.Mathlib.Text.{◌==◌ as str_eq}
use agentsecrets_server.Prelude.{
  ℕ, ◌-◌, List, [], ◌∷◌, ◌++◌, Bool, true, false, ◌&&◌, ◌||◌, Option, none, some, length, get_elem?,
  if◌then◌else◌, leb, ◌>>=◌,
}
use agentsecrets_server.Text.{codes}
use agentsecrets_server.Text.Search.{equal_text}
use agentsecrets_server.Text.Replace.{split_on}
use agentsecrets_server.SelectBox.{Item, Box, node_of, assign, add_to_cache, redisplay}
use agentsecrets_server.SelectBox
use agentsecrets_server.RelatedPopups.Windows.{Window, Field, Page, forget}

-- What select2 shows beside a select: its text and its title.
pub record Rendered : Type 0 where
  pub text : List ℕ
  pub title : List ℕ

-- The page, the selects with SelectBox's caches, the texts beside a select, and the ids of the elements
-- that got a change event.
pub record State : Type 0 where
  pub page : Page
  pub selects : SelectBox.Page
  pub rendered : List ℕ → List Rendered
  pub changed : List (List ℕ)

-- The elements that are neither selects nor inputs, the selects that take several values, the selects
-- `[data-model-ref="…"] [data-context="available-source"]` of a model, whether SelectBox.js is loaded,
-- and an id as a native string.
pub record Document : Type 0 where
  pub is_other : List ℕ → Bool
  pub is_multiple : List ℕ → Bool
  pub related : List ℕ → List (List ℕ)
  pub has_select_box : Bool
  pub spell : List ℕ → String

-- `path.split("/")[path.split("/").length - (objId ? 4 : 3)]`, in a template.
abbrev pub part_at : Bool → Option (List ℕ) → List ℕ
part_at true (some part) = part
part_at _ _ = codes "undefined"

abbrev is_given : Option (List ℕ) → Bool
is_given none = false
is_given (some []) = false
is_given (some (c ∷ s)) = true

unfoldable pub model_name : List ℕ → Option (List ℕ) → List ℕ
model_name path obj_id =
    let parts = split_on (codes "/") path in
    let from_end = if is_given obj_id then 4 else 3 in
    part_at (leb from_end (length parts)) (get_elem? parts (length parts - from_end))

abbrev pub null_or : Option (List ℕ) → List ℕ
null_or none = codes "null"
null_or (some s) = s

abbrev pub renamed : List ℕ → String → Item → Item
renamed repr value o = record o { text = repr; value = value }

-- The options after `select.querySelector('option[value="…"]')` has got a new text and value.
unfoldable pub rename_first : String → List ℕ → String → List Item → Option (List Item)
rename_first obj repr value [] = none
rename_first obj repr value (o ∷ options) =
    let rest = rename_first obj repr value options in
    if str_eq o.value obj
    then some (renamed repr value o ∷ options)
    else rest >>= λ after. some (o ∷ after)

abbrev pub new_option : List ℕ → String → Bool → Item
new_option repr value selected = record {
  value = value;
  text = repr;
  title = [];
  selected = selected;
}

abbrev pub with_options : String → List Item → Box → SelectBox.Page → SelectBox.Page
with_options id options box p = record p {
  boxes = assign p.boxes id (record box { options = options });
}

abbrev pub is_none {ℓ} : {A : Type ℓ} → Option A → Bool
is_none none = true
is_none (some a) = false

pub is_among : List ℕ → List (List ℕ) → Bool
is_among id [] = false
is_among id (other ∷ ids) = equal_text id other || is_among id ids

-- The end of the three functions that follow.
abbrev pub dismiss : Window → State → State
dismiss win s = record s {
  page = record s.page {
    related_windows = forget win.number s.page.related_windows;
    closed = win.number ∷ s.page.closed;
  };
}

pub data Element : Type 0 where
  select_element : Box → Element
  input_element : Field → Element
  other_element : Element
  missing : Element

module _ (doc : Document) where
  open doc use {spell}

  -- The cache of a select that got a new option; `current` is `currentSelect`, if there is one.
  pub cache_new : Option (List ℕ) → String → Item → SelectBox.Page → Option SelectBox.Page
  cache_new none id option p = if doc.has_select_box then none else some p
  cache_new (some current) id option p =
      if doc.has_select_box && is_none (p.cache (spell current))
      then (add_to_cache id (node_of option) p >>= redisplay id)
      else some p

  -- The select with the options after its option has been renamed, or with a new one.
  pub place :
      Option (List ℕ)
      → String
      → Item
      → Box
      → SelectBox.Page
      → Option (List Item)
      → Option SelectBox.Page
  unfolding cache_new
  place current id option box p (some options) = some (with_options id options box p)
  place current id option box p none =
      cache_new current id option (with_options id (box.options ++ option ∷ []) box p)

  -- The body of the loop, for a select that is not left out.
  pub update_select :
      Option (List ℕ)
      → Option (List ℕ)
      → List ℕ
      → List ℕ
      → List ℕ
      → SelectBox.Page
      → Option SelectBox.Page
  unfolding rename_first place
  update_select current obj repr new_id select p = do
    box ← p.boxes (spell select)
    place current (spell select) (new_option repr (spell new_id) false) box p
        (rename_first (spell (null_or obj)) repr (spell new_id) box.options)

  abbrev pub is_current : Option (List ℕ) → List ℕ → Bool
  is_current none select = false
  is_current (some current) select = equal_text current select

  -- The loop of `updateRelatedSelectsOptions`.
  pub update_selects :
      Option (List ℕ)
      → Option (List ℕ)
      → List ℕ
      → List ℕ
      → List (List ℕ)
      → List (List ℕ)
      → SelectBox.Page
      → Option SelectBox.Page
  unfolding update_select is_among
  update_selects current obj repr new_id skip [] p = some p
  update_selects current obj repr new_id skip (select ∷ selects) p = do
    q ←
        (if is_current current select || is_among select skip
          then some p
          else update_select current obj repr new_id select p)
    update_selects current obj repr new_id skip selects q

  -- `path` is the path of the window's URL.
  unfoldable pub update_related_selects_options :
      Option (List ℕ)
      → List ℕ
      → Option (List ℕ)
      → List ℕ
      → List ℕ
      → List (List ℕ)
      → SelectBox.Page
      → Option SelectBox.Page
  unfolding update_selects model_name
  update_related_selects_options current path obj repr new_id skip =
      update_selects current obj repr new_id skip (doc.related (model_name path obj))

  -- `document.getElementById`
  unfoldable pub element_of : List ℕ → State → Element
  element_of id s = elim (s.selects.boxes (spell id)) [
    | some box ↦ select_element box
    | none ↦ elim (s.page.fields id) [
      | some f ↦ input_element f
      | none ↦ if doc.is_other id then other_element else missing
    ]
  ]
