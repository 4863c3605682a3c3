-- ===== src/SelectFilter/Submit.antt =====
-- What the form sends: every node of the chosen box, whatever its filter hides.
use agentsecrets_server.Prelude.{List, [], ◌∷◌, some, true, map, ◌≡◌, refl, ap}
use agentsecrets_server.Text.{CaseMapping}
use agentsecrets_server.SelectBox.{Node, Item, Box, assign, option_of, select_all}
use agentsecrets_server.SelectBox.Filter.{assign_self, displayed_node, filter-nil}
use agentsecrets_server.SelectFilter.{Ids, Field, submit}

-- A node as the form sends it.
abbrev pub sent : Node → Item
sent n = record { value = n.value; text = n.text; title = n.text; selected = true }

abbrev selected : Item → Item
selected o = record o { selected = true }

map-sent :
    (nodes : List Node) → map selected (map option_of (map displayed_node nodes)) ≡ map sent nodes
map-sent [] = refl
map-sent (n ∷ nodes) = ap (sent n ∷◌) (map-sent nodes)

module _ (host : CaseMapping) (ids : Ids) where
  -- Where the chosen box and its cache are there, the form is sent with an option for every node of
  -- the cache, in order and selected, also for the nodes that the filter of the box has hidden.
  pub submit_lem :
      (f : Field) (nodes : List Node) (box : Box)
      → f.page.cache ids.to ≡ some nodes
      → f.page.boxes ids.to ≡ some box
      → (g : Field) × (submit host ids f ≡ some g)
        × (g.page.boxes ids.to ≡ some (record box { options = map sent nodes }))
  unfolding submit select_all
  submit_lem f nodes box hc hb =
      let all : List Node = map displayed_node nodes in
      let shown : Box = record box { options = map option_of all } in
      let chosen : Box = record box { options = map sent nodes } in
      let boxes = assign f.page.boxes ids.to shown in
      (
        record f {
          page = record {
            cache = assign f.page.cache ids.to all;
            boxes = assign boxes ids.to chosen;
          };
        },
        rw (filter-nil host ids.to nodes box f.page hc hb) (simp (assign_self, map-sent)),
        assign_self boxes ids.to chosen,
      )
