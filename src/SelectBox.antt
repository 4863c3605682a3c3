-- ===== src/SelectBox.antt =====
-- staticfiles/admin/js/SelectBox.js: the cache of options behind the select boxes, and the boxes as
-- the page shows them. An element or a cache that is not there makes the script throw: `none`.
pub mod Tests
pub mod Filter
pub mod Move
pub mod Sort
use Prim.Native.String.{String}
use text.Mathlib.Text.{◌==◌ as str_eq}
use agentsecrets_server.Prelude.{
  ℕ, List, [], ◌∷◌, ◌++◌, Option, none, some, Bool, true, false, not, ◌&&◌, if◌then◌else◌, map,
  keep, length, ◌>>=◌,
}
use agentsecrets_server.Text.{CaseMapping}
use agentsecrets_server.Text.Search.{includes, split_spaces}

-- An entry of a cache: `{value, text, displayed}`.
pub record Node : Type 0 where
  pub value : String
  pub text : List ℕ
  pub displayed : Bool

-- An `<option>` of the page.
pub record Item : Type 0 where
  pub value : String
  pub text : List ℕ
  pub title : List ℕ
  pub selected : Bool

pub record Box : Type 0 where
  pub options : List Item
  pub scroll_top : ℕ

pub record Page : Type 0 where
  pub cache : String → Option (List Node)
  pub boxes : String → Option Box

-- `object[key] = value`
abbrev pub assign {ℓ} : {A : Type ℓ} → (String → Option A) → String → A → String → Option A
assign f k v j = if str_eq k j then some v else f j

abbrev pub node_of : Item → Node
node_of o = record { value = o.value; text = o.text; displayed = true }

-- `new Option(node.text, node.value, false, false)` with its tooltip.
abbrev pub option_of : Node → Item
option_of n = record { value = n.value; text = n.text; title = n.text; selected = false }

abbrev pub is_displayed : Node → Bool
is_displayed n = n.displayed

unfoldable pub init : String → Page → Option Page
init id p = do
  box ← p.boxes id
  some (record p { cache = assign p.cache id (map node_of box.options) })

unfoldable pub redisplay : String → Page → Option Page
redisplay id p = do
  box ← p.boxes id
  nodes ← p.cache id
  some (record p {
    boxes = assign p.boxes id (record box { options = map option_of (keep is_displayed nodes) });
  })

pub all_included : List (List ℕ) → List ℕ → Bool
all_included [] text = true
all_included (token ∷ tokens) text = includes token text && all_included tokens text

module _ (host : CaseMapping) where
  open host use {to_lower_case}

  pub tokens_of : List ℕ → List (List ℕ)
  tokens_of text = split_spaces false (to_lower_case text)

  -- The inner loop of `filter`, for one node.
  pub filter_node : List (List ℕ) → Node → Node
  filter_node tokens n = record n { displayed = all_included tokens (to_lower_case n.text) }

  unfoldable pub filter : String → List ℕ → Page → Option Page
  unfolding filter_node tokens_of
  filter id text p = do
    nodes ← p.cache id
    redisplay id (record p { cache = assign p.cache id (map (filter_node (tokens_of text)) nodes) })

-- `SelectBox.cache[id] || []`
abbrev pub or_empty : Option (List Node) → List Node
or_empty none = []
or_empty (some nodes) = nodes

unfoldable pub get_hidden_node_count : String → Page → ℕ
get_hidden_node_count id p = length (keep (λ n. not n.displayed) (or_empty (p.cache id)))

pub cache_contains : List Node → String → Bool
cache_contains [] value = false
cache_contains (n ∷ nodes) value = if str_eq n.value value then true else cache_contains nodes value

-- The nodes without the first one that has the value; `none` if there is none.
pub without_value : String → List Node → Option (List Node)
without_value value [] = none
without_value value (n ∷ nodes) =
    let rest = without_value value nodes in
    if str_eq n.value value then some nodes else (rest >>= λ r. some (n ∷ r))

-- `cache.splice(null, 1)` removes at index 0.
abbrev pub splice_at_null : List Node → List Node
splice_at_null [] = []
splice_at_null (n ∷ nodes) = nodes

unfoldable pub delete_value : String → List Node → List Node
delete_value value nodes = elim (without_value value nodes) [
  | some rest ↦ rest
  | none ↦ splice_at_null nodes
]

unfoldable pub delete_from_cache : String → String → Page → Option Page
unfolding delete_value without_value
delete_from_cache id value p = do
  nodes ← p.cache id
  some (record p { cache = assign p.cache id (delete_value value nodes) })

unfoldable pub add_to_cache : String → Node → Page → Option Page
add_to_cache id node p = do
  nodes ← p.cache id
  some (record p { cache = assign p.cache id (nodes ++ node ∷ []) })

-- One round of the loops of `move` and `move_all`: the two tests, the second on the cache.
pub move_present : Bool → String → String → Item → Page → Option Page
unfolding add_to_cache delete_from_cache
move_present false from to o p = some p
move_present true from to o p = do
  added ← add_to_cache to (node_of o) p
  delete_from_cache from o.value added

pub move_option : String → String → Bool → Item → Page → Option Page
unfolding move_present cache_contains
move_option from to false o p = some p
move_option from to true o p = do
  nodes ← p.cache from
  move_present (cache_contains nodes o.value) from to o p

-- The loop; `all` leaves out the test of `option.selected`.
pub move_options : Bool → String → String → List Item → Page → Option Page
move_options all from to [] p = some p
move_options all from to (o ∷ options) p = do
  moved ← move_option from to (if all then true else o.selected) o p
  move_options all from to options moved

pub move_with : Bool → String → String → Page → Option Page
unfolding move_options move_option redisplay
move_with all from to p = do
  box ← p.boxes from
  moved ← move_options all from to box.options p
  shown ← redisplay from moved
  redisplay to shown

unfoldable pub move : String → String → Page → Option Page
unfolding move_with
move from to p = move_with false from to p

unfoldable pub move_all : String → String → Page → Option Page
unfolding move_with
move_all from to p = move_with true from to p

abbrev selected_item : Item → Item
selected_item o = record o { selected = true }

unfoldable pub select_all : String → Page → Option Page
select_all id p = do
  box ← p.boxes id
  some (record p {
    boxes = assign p.boxes id (record box { options = map selected_item box.options });
  })
