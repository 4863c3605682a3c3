-- ===== src/SelectBox/Tests.antt =====
-- A page with two boxes, and the theorems on it.
use Prim.Native.String.{String}
use text.Mathlib.Text.{◌==◌ as str_eq}
use agentsecrets_server.Prelude.{
  ℕ, ◌≡◌, refl, Bool, true, false, none, some, List, [], ◌∷◌, ◌++◌, map, keep,
}
use agentsecrets_server.Text.{codes, ascii_case}
use agentsecrets_server.SelectBox.{
  Node, Item, Box, Page, tokens_of, filter, cache_contains, move_with, assign, option_of,
  is_displayed,
}
use agentsecrets_server.SelectBox.Sort.{sort, comes_after, has_text, sort_lem}
use agentsecrets_server.Prelude.Sort.Order.{IsSorted}
use agentsecrets_server.SelectBox.Filter.{Shows, Filtered, filter_lem}
use agentsecrets_server.SelectBox.Move.Exact.{stays, nodes_of, IsFaithful, move_with_exact}

abbrev pub node : String → String → Node
node v t = record { value = v; text = codes t; displayed = true }

abbrev pub item : String → String → Bool → Item
item v t s = record { value = v; text = codes t; title = codes t; selected = s }

abbrev pub left_nodes : List Node
left_nodes = node "1" "Add user" ∷ node "2" "Drop user" ∷ node "3" "Add key" ∷ []

abbrev pub left_box : Box
left_box = record {
  options = item "1" "Add user" false ∷ item "2" "Drop user" true ∷ item "3" "Add key" false ∷ [];
  scroll_top = 0;
}

abbrev pub right_box : Box
right_box = record { options = []; scroll_top = 0 }

abbrev pub page : Page
page = record {
  cache = assign (assign (λ _. none) "to" []) "from" left_nodes;
  boxes = assign (assign (λ _. none) "to" right_box) "from" left_box;
}

filter_lem_example :
    (new : List Node) × (p' : Page) × (filter ascii_case "from" (codes "ADD u") page ≡ some p')
    × Filtered ascii_case (tokens_of ascii_case (codes "ADD u")) left_nodes new
    × Shows "from" new p'
    × ((j : String)
        → str_eq "from" j ≡ false
        → (p'.cache j ≡ page.cache j) × (p'.boxes j ≡ page.boxes j))
filter_lem_example = filter_lem ascii_case "from" (codes "ADD u") left_nodes left_box page refl refl

abbrev shown_page : Page
shown_page = record page {
  boxes =
      assign page.boxes "from"
        (record left_box { options = map option_of (keep is_displayed left_nodes) });
}

abbrev shown_page-Shows : Shows "from" left_nodes shown_page
shown_page-Shows = record {
  cached = refl;
  box = record left_box { options = map option_of (keep is_displayed left_nodes) };
  there = refl;
  shown = refl;
}

-- A box that still has a selected option whose value its cache has not.
abbrev pub stale_box : Box
stale_box = record left_box { options = item "9" "Gone" true ∷ left_box.options }

abbrev pub stale_page : Page
stale_page = record page { boxes = assign page.boxes "from" stale_box }

pub stale_box-IsFaithful : IsFaithful stale_box.options left_nodes
unfolding cache_contains
stale_box-IsFaithful = record {
  nodes_distinct = (refl, (refl, (refl, tt)));
  items_distinct = ((refl, (refl, (refl, tt))), ((refl, (refl, tt)), ((refl, tt), (tt, tt))));
}

-- Only the other selected one is moved.
one_moved : nodes_of false left_nodes stale_box.options ≡ node "2" "Drop user" ∷ []
unfolding nodes_of cache_contains
one_moved = refl

move_with_exact_example :
    (p' : Page) × (move_with false "from" "to" stale_page ≡ some p')
    × Shows "from" (keep (stays false stale_box.options) left_nodes) p'
    × Shows "to" ([] ++ nodes_of false left_nodes stale_box.options) p'
move_with_exact_example =
    move_with_exact "from" "to" false left_nodes [] stale_box right_box stale_page refl refl refl
      refl refl stale_box-IsFaithful

abbrev unsorted : List Node
unsorted = node "2" "drop" ∷ node "1" "Add" ∷ node "3" "Drop" ∷ []

abbrev unsorted_page : Page
unsorted_page = record page { cache = assign page.cache "from" unsorted }

sort_lem_example :
    (sorted : List Node) × (p' : Page) × (sort ascii_case "from" unsorted_page ≡ some p')
    × (p'.cache "from" ≡ some sorted)
    × IsSorted (comes_after ascii_case) sorted
    × ((t : List ℕ) → keep (has_text ascii_case t) sorted ≡ keep (has_text ascii_case t) unsorted)
    × (p'.boxes ≡ unsorted_page.boxes)
    × ((j : String) → str_eq "from" j ≡ false → p'.cache j ≡ unsorted_page.cache j)
sort_lem_example = sort_lem ascii_case "from" unsorted unsorted_page refl
