-- ===== src/RelatedPopups/Dismiss/Added.antt =====
-- What a page shows after an object has been added for one of its selects.
use Prim.Native.String.{String}
use text.Mathlib.Text.{◌==◌ as str_eq}
use agentsecrets_server.Prelude.{
  ℕ, List, [], ◌∷◌, ◌++◌, true, false, ◌≡◌, refl, ap, ◌∙◌, none, some, All, All-map,
}
use agentsecrets_server.Text.{codes}
use agentsecrets_server.Text.Search.{equal_text}
use agentsecrets_server.SelectBox.{Item, Box}
use agentsecrets_server.SelectBox
use agentsecrets_server.RelatedPopups.{remove_popup_index}
use agentsecrets_server.RelatedPopups.Windows.{Window, forget}
use agentsecrets_server.RelatedPopups.Options.{
  State, Document, with_options, new_option, rename_first, model_name, element_of, select_element,
  dismiss,
}
use agentsecrets_server.RelatedPopups.Options.Related.{
  is_one_of, changed_box, HasBox, IsDistinct, with_object, taken, with_options-HasBox,
  with_options-boxes, update_related_selects_options-exact, update_related_selects_options-uncached,
}
use agentsecrets_server.RelatedPopups.Dismiss.{add_selected, add_in, dismiss_add}

module _ (doc : Document) where
  open doc use {spell}

  -- A selected option at the end of the options.
  abbrev pub with_added : List ℕ → List ℕ → List ℕ → List Item → List Item
  with_added id repr new_id options =
      add_selected (doc.is_multiple id) (new_option repr (spell new_id) true) options

  element_of-select :
      (id : List ℕ) (s : State) (box : Box)
      → s.selects.boxes (spell id) ≡ some box
      → element_of doc id s ≡ select_element box
  unfolding element_of
  element_of-select id s box there = rw (element_of, there) refl

  -- Where SelectBox.js is not loaded and the field of the window is a select: the window is closed and
  -- forgotten, the select has a selected option for the object at its end and gets a change event, and
  -- of the other selects of the model each has an option for it too, at its end unless one of its
  -- options has the value `null`. No other box changes.
  pub dismiss_add-exact :
      (win : Window) (path new_id repr id : List ℕ) (s : State) (box : Box)
      → doc.has_select_box ≡ false
      → remove_popup_index s.page.popup_index win.name ≡ id
      → s.selects.boxes (spell id) ≡ some box
      → All (HasBox spell s.selects) (doc.related (model_name path none))
      → IsDistinct spell (doc.related (model_name path none))
      → (after : State) × (dismiss_add doc win path new_id repr s ≡ some after)
        × (after.page ≡ record s.page {
          related_windows = forget win.number s.page.related_windows;
          closed = win.number ∷ s.page.closed;
        })
        × (after.changed ≡ s.changed ++ id ∷ [])
        × (after.selects.cache ≡ s.selects.cache)
        × ((j : String)
            → after.selects.boxes j
              ≡ changed_box
                  (with_object doc none repr new_id)
                  (is_one_of spell (taken doc (some id) [] (doc.related (model_name path none))) j)
                  (changed_box
                    (with_added id repr new_id)
                    (str_eq (spell id) j)
                    (s.selects.boxes j)))
  unfolding dismiss_add add_in
  dismiss_add-exact win path new_id repr id s box alone named there h k =
      let added : SelectBox.Page =
        with_options (spell id) (with_added id repr new_id box.options) box s.selects in
      let (q, made, cache, boxes) =
        update_related_selects_options-exact doc alone (some id) path none repr new_id [] added
          (All-map
            (λ other b.
              with_options-HasBox doc alone none repr new_id (with_added id repr new_id box.options)
                id other s.selects box b)
            (doc.related (model_name path none)) h)
          k in
      (
        dismiss win (record s { selects = q; changed = s.changed ++ id ∷ [] }),
        rw (named, element_of-select id s box there, made) refl,
        refl,
        refl,
        cache,
        λ j.
            boxes j
            ∙ ap
                (changed_box (with_object doc none repr new_id)
                  (is_one_of spell (taken doc (some id) [] (doc.related (model_name path none))) j))
                (with_options-boxes doc alone none repr new_id (with_added id repr new_id) id
                  s.selects box j there),
      )

  -- Where SelectBox.js is loaded, the field of the window is a select without a cache, and the first
  -- select of the model is another one without a cache, which has no option `null`, the answer throws.
  pub dismiss_add-uncached :
      (win : Window) (path new_id repr id other : List ℕ) (ids : List (List ℕ)) (s : State)
      (box box' : Box)
      → doc.has_select_box ≡ true
      → remove_popup_index s.page.popup_index win.name ≡ id
      → s.selects.boxes (spell id) ≡ some box
      → s.selects.cache (spell id) ≡ none
      → doc.related (model_name path none) ≡ other ∷ ids
      → equal_text id other ≡ false
      → str_eq (spell id) (spell other) ≡ false
      → s.selects.boxes (spell other) ≡ some box'
      → rename_first (spell (codes "null")) repr (spell new_id) box'.options ≡ none
      → s.selects.cache (spell other) ≡ none
      → dismiss_add doc win path new_id repr s ≡ none
  unfolding dismiss_add add_in
  dismiss_add-uncached win path new_id repr id other ids s box box' loaded named there own related
        apart elsewhere there' new uncached =
      rw
        (
          named,
          element_of-select id s box there,
          update_related_selects_options-uncached doc id other path repr new_id ids
              (with_options (spell id) (with_added id repr new_id box.options) box s.selects) box'
              loaded own related apart (rw elsewhere there') new uncached,
        )
        refl
