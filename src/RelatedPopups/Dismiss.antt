-- ===== src/RelatedPopups/Dismiss.antt =====
-- RelatedObjectLookups.js: the answers of the windows that add, change or delete an object.
pub mod Deleted
pub mod Added
mod Tests
use Prim.Native.String.{String}
use text.Mathlib.Text.{◌==◌ as str_eq}
use agentsecrets_server.Prelude.{
  ℕ, List, [], ◌∷◌, ◌++◌, Bool, true, false, not, Option, none, some, map, keep, if◌then◌else◌,
  ◌>>=◌,
}
use agentsecrets_server.Text.{codes}
use agentsecrets_server.Text.Search.{equal_text}
use agentsecrets_server.SelectBox.{Item, Box, node_of, add_to_cache, redisplay}
use agentsecrets_server.SelectBox
use agentsecrets_server.RelatedPopups.{remove_popup_index}
use agentsecrets_server.RelatedPopups.Windows.{Window, remove_start, chosen_value, set_field}
use agentsecrets_server.RelatedPopups.Options.{
  State, Document, Rendered, Element, select_element, input_element, other_element, missing,
  element_of, new_option, renamed, with_options, update_related_selects_options, dismiss,
}

abbrev deselected : Item → Item
deselected o = record o { selected = false }

-- A selected option at the end; in a select that takes one value the others are no longer selected.
abbrev add_selected : Bool → Item → List Item → List Item
add_selected multiple o options = (if multiple then options else map deselected options) ++ o ∷ []

-- The ids of `#%s, #%s_from, #%s_to`.
abbrev pub select_ids : List ℕ → List (List ℕ)
select_ids id = id ∷ (id ++ codes "_from") ∷ (id ++ codes "_to") ∷ []

-- Every option of one of the selects; each gets a change event, which reaches its select unless the
-- option has been removed.

module _ (doc : Document) where
  open doc use {spell}

  abbrev with_change : List ℕ → State → State
  with_change id s = record s { changed = s.changed ++ id ∷ [] }

  abbrev with_selects : SelectBox.Page → State → State
  with_selects p s = record s { selects = p }

  -- An element of the name of the window is there.
  pub add_in : List ℕ → List ℕ → List ℕ → List ℕ → Element → State → Option State
  add_in id path new_id repr (select_element box) s = do
    p ← update_related_selects_options doc (some id) path none repr new_id [] (
        with_options (spell id)
          (add_selected (doc.is_multiple id) (new_option repr (spell new_id) true) box.options) box
          s.selects)
    some (with_change id (with_selects p s))
  add_in id path new_id repr (input_element f) s = some (
      with_change id (record s {
        page = record s.page {
          fields = set_field s.page.fields id (record f { value = chosen_value new_id f });
        };
      }))
  add_in id path new_id repr other_element s = some (with_change id s)
  add_in id path new_id repr missing s = do
    let to_id = id ++ codes "_to"
    added ← add_to_cache (spell to_id) (node_of (new_option repr (spell new_id) false)) s.selects
    p ← redisplay (spell to_id) added
    q ← elim (element_of doc to_id s) [
      | select_element box ↦
          update_related_selects_options doc (some to_id) path none repr new_id
            ((id ++ codes "_from") ∷ []) p
      | input_element f ↦ some p
      | other_element ↦ some p
      | missing ↦ some p
    ]
    some (with_selects q s)

  -- `dismissAddRelatedObjectPopup`; `path` is the path of the window's URL.
  unfoldable pub dismiss_add : Window → List ℕ → List ℕ → List ℕ → State → Option State
  unfolding add_in
  dismiss_add win path new_id repr s = do
    let id = remove_popup_index s.page.popup_index win.name
    after ← add_in id path new_id repr (element_of doc id s) s
    some (dismiss win after)

  abbrev pub change_box : (List Item → List Item) → List ℕ → Option Box → State → State
  change_box f id none s = s
  change_box f id (some box) s =
      let options = f box.options in
      record s {
        selects = with_options (spell id) options box s.selects;
        changed = s.changed ++ map (λ (o : Item). id) options;
      }

  pub change_all : (List Item → List Item) → List (List ℕ) → State → State
  change_all f [] s = s
  change_all f (id ∷ ids) s = change_all f ids (change_box f id (s.selects.boxes (spell id)) s)

  -- `selects[0]`
  pub first_there : List (List ℕ) → State → Option (List ℕ)
  first_there [] s = none
  first_there (id ∷ ids) s =
      let rest = first_there ids s in
      elim (element_of doc id s) [
        | select_element box ↦ some id
        | input_element f ↦ some id
        | other_element ↦ some id
        | missing ↦ rest
      ]

  abbrev rename_value : String → List ℕ → String → Item → Item
  rename_value obj repr value o = if str_eq o.value obj then renamed repr value o else o

  abbrev show_rendered : List ℕ → Rendered → Rendered
  show_rendered repr r = record { text = repr; title = repr }

  abbrev is_there : List ℕ → State → Bool
  is_there id s = elim (element_of doc id s) [
    | select_element box ↦ true
    | input_element f ↦ true
    | other_element ↦ true
    | missing ↦ false
  ]

  pub render_all : List ℕ → List (List ℕ) → State → State
  render_all repr [] s = s
  render_all repr (id ∷ ids) s = render_all repr ids (
      if is_there id s
      then record s {
        rendered = λ any.
            if equal_text any id then map (show_rendered repr) (s.rendered id) else s.rendered any;
      }
      else s)

  -- `dismissChangeRelatedObjectPopup`
  unfoldable pub dismiss_change : Window → List ℕ → List ℕ → List ℕ → List ℕ → State → Option State
  unfolding change_all first_there render_all
  dismiss_change win path obj repr new_id s = do
    let id = remove_popup_index s.page.popup_index (remove_start (codes "edit_" ∷ []) win.name)
    let ids = select_ids id
    let after = change_all (map (rename_value (spell obj) repr (spell new_id))) ids s
    p ←
        update_related_selects_options doc (first_there ids s) path (some obj) repr new_id []
          after.selects
    some (dismiss win (render_all repr ids (with_selects p after)))

  -- `dismissDeleteRelatedObjectPopup`
  unfoldable pub dismiss_delete : Window → List ℕ → State → State
  unfolding change_all
  dismiss_delete win obj s =
      let id =
        remove_popup_index s.page.popup_index (remove_start (codes "delete_" ∷ []) win.name) in
      dismiss win (change_all (keep (λ o. not (str_eq o.value (spell obj)))) (select_ids id) s)
