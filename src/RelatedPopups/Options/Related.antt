-- ===== src/RelatedPopups/Options/Related.antt =====
-- The selects of a model, where SelectBox.js is not loaded, after an object has got a new text.
use Prim.Native.String.{String}
use text.Mathlib.Text.{◌==◌ as str_eq}
use text.Mathlib.TextEquality.{eq_iff}
use agentsecrets_server.Prelude.{
  ℕ, List, [], ◌∷◌, ◌++◌, Bool, true, false, not, ◌||◌, ◌≡◌, refl, sym, ap, ◌∙◌, Option, none, some,
  keep, arith, Bool-cases, inl, inr, All, All-map,
}
use agentsecrets_server.SelectBox.{Item, Box, add_to_cache}
use agentsecrets_server.SelectBox
use agentsecrets_server.Text.{codes}
use agentsecrets_server.Text.Search.{equal_text}
use agentsecrets_server.RelatedPopups.Options.{
  Document, with_options, new_option, rename_first, null_or, is_current, is_among, model_name,
  cache_new, place, update_select, update_selects, update_related_selects_options,
}

-- The element of one of the ids.
unfoldable pub is_one_of : (List ℕ → String) → List (List ℕ) → String → Bool
is_one_of spell [] j = false
is_one_of spell (id ∷ ids) j = str_eq (spell id) j || is_one_of spell ids j

abbrev pub changed_box : (List Item → List Item) → Bool → Option Box → Option Box
changed_box f false box = box
changed_box f true none = none
changed_box f true (some box) = some (record box { options = f box.options })

abbrev pub or_appended : List Item → Item → Option (List Item) → List Item
or_appended options option none = options ++ option ∷ []
or_appended options option (some after) = after

abbrev pub HasBox : (List ℕ → String) → SelectBox.Page → List ℕ → Type 0
HasBox spell p id = (box : Box) × (p.boxes (spell id) ≡ some box)

-- No two ids are those of the same element.
abbrev pub IsDistinct : (List ℕ → String) → List (List ℕ) → Type 0
IsDistinct spell [] = Unit
IsDistinct spell (id ∷ ids) = (is_one_of spell ids (spell id) ≡ false) × IsDistinct spell ids

changed_box_once :
    (f : List Item → List Item) (a b : Bool) (box : Option Box)
    → (a ≡ true → b ≡ false)
    → changed_box f b (changed_box f a box) ≡ changed_box f (a || b) box
changed_box_once f true true box h = absurd (cc (h refl))
changed_box_once f true false box h = refl
changed_box_once f false b box h = refl

is_one_of-keep :
    (spell : List ℕ → String) (p : List ℕ → Bool) (ids : List (List ℕ)) (j : String)
    → is_one_of spell ids j ≡ false
    → is_one_of spell (keep p ids) j ≡ false
unfolding is_one_of
is_one_of-keep spell p [] j h = refl
is_one_of-keep spell p (id ∷ ids) j h = elim (Bool-cases (p id)) [
  | inl e ↦ rw (e, keep) (ground (arith, is_one_of-keep spell p ids j (ground (arith, h)), h))
  | inr e ↦ rw (e, keep) (is_one_of-keep spell p ids j (ground (arith, h)))
]

module _ (doc : Document) where
  open doc use {spell}

  -- The options of a select of the model: the option with the old value is renamed, or a new one
  -- stands at the end.
  abbrev pub with_object : Option (List ℕ) → List ℕ → List ℕ → List Item → List Item
  with_object obj repr new_id options =
      or_appended options (new_option repr (spell new_id) false)
        (rename_first (spell (null_or obj)) repr (spell new_id) options)

  -- The selects of the model that are not left out.
  abbrev pub taken : Option (List ℕ) → List (List ℕ) → List (List ℕ) → List (List ℕ)
  taken current skip selects =
      keep (λ (id : List ℕ). not (is_current doc current id || is_among id skip)) selects

  module _ (alone : doc.has_select_box ≡ false) (obj : Option (List ℕ)) (repr new_id : List ℕ) where
    cache_new-alone :
        (current : Option (List ℕ)) (id : String) (option : Item) (p : SelectBox.Page)
        → cache_new doc current id option p ≡ some p
    unfolding cache_new
    cache_new-alone none id option p = rw alone refl
    cache_new-alone (some current) id option p = rw alone refl

    place-alone :
        (current : Option (List ℕ)) (id : String) (option : Item) (box : Box) (p : SelectBox.Page)
        (after : Option (List Item))
        → place doc current id option box p after
          ≡ some (with_options id (or_appended box.options option after) box p)
    unfolding place
    place-alone current id option box p none = cache_new-alone current id option _
    place-alone current id option box p (some after) = refl

    update_select-alone :
        (current : Option (List ℕ)) (id : List ℕ) (p : SelectBox.Page) (box : Box)
        → p.boxes (spell id) ≡ some box
        → update_select doc current obj repr new_id id p
          ≡ some (with_options (spell id) (with_object obj repr new_id box.options) box p)
    unfolding update_select
    update_select-alone current id p box there = rw there (place-alone current (spell id) _ box p _)

    pub with_options-boxes :
        (f : List Item → List Item) (id : List ℕ) (p : SelectBox.Page) (box : Box) (j : String)
        → p.boxes (spell id) ≡ some box
        → (with_options (spell id) (f box.options) box p).boxes j
          ≡ changed_box f (str_eq (spell id) j) (p.boxes j)
    with_options-boxes f id p box j there = elim (Bool-cases (str_eq (spell id) j)) [
      | inl e ↦
          let q : spell id ≡ j = ground (arith, eq_iff (spell id) j, e) in
          rw (e, sym (ap p.boxes q) ∙ there) refl
      | inr e ↦ rw e refl
    ]

    apart :
        (id : List ℕ) (j : String) (ids : List (List ℕ)) (p : List ℕ → Bool)
        → is_one_of spell ids (spell id) ≡ false
        → str_eq (spell id) j ≡ true
        → is_one_of spell (keep p ids) j ≡ false
    apart id j ids p h e =
        let q : spell id ≡ j = ground (arith, eq_iff (spell id) j, e) in
        is_one_of-keep spell p ids j (ap (is_one_of spell ids) (sym q) ∙ h)

    pub with_options-HasBox :
        (options : List Item) (id other : List ℕ) (p : SelectBox.Page) (box : Box)
        → HasBox spell p other
        → HasBox spell (with_options (spell id) options box p) other
    with_options-HasBox options id other p box (b, there) =
        elim (Bool-cases (str_eq (spell id) (spell other))) [
          | inl e ↦ (record box { options = options }, rw e refl)
          | inr e ↦ (b, rw e there)
        ]

    -- The loop over the selects.
    update_selects-exact :
        (current : Option (List ℕ)) (skip selects : List (List ℕ)) (p : SelectBox.Page)
        → All (HasBox spell p) selects
        → IsDistinct spell selects
        → (q : SelectBox.Page) × (update_selects doc current obj repr new_id skip selects p
            ≡ some q)
          × (q.cache ≡ p.cache)
          × ((j : String)
              → q.boxes j
                ≡ changed_box
                    (with_object obj repr new_id)
                    (is_one_of spell (taken current skip selects) j)
                    (p.boxes j))
    unfolding update_selects is_one_of
    update_selects-exact current skip [] p h k = (p, refl, refl, λ j. refl)
    update_selects-exact current skip (id ∷ selects) p h k =
        elim (Bool-cases (is_current doc current id || is_among id skip)) [
          | inl e ↦
              let (q, made, cache, boxes) = update_selects-exact current skip selects p h.1 k.1 in
              (q, rw e made, cache, λ j. rw (e, keep) (boxes j))
          | inr e ↦
              let (box, there) = h.0 in
              let f : List Item → List Item = with_object obj repr new_id in
              let options : List Item = with_object obj repr new_id box.options in
              let next : SelectBox.Page = with_options (spell id) options box p in
              let (q, made, cache, boxes) =
                update_selects-exact current skip selects next
                  (All-map (λ other b. with_options-HasBox options id other p box b) selects h.1)
                  k.1 in
              (
                q,
                rw (e, update_select-alone current id p box there) made,
                cache,
                λ j.
                    rw (e, keep)
                      (boxes j
                        ∙ ap (changed_box f (is_one_of spell (taken current skip selects) j))
                            (with_options-boxes f id p box j there)
                        ∙ changed_box_once f (str_eq (spell id) j) _ (p.boxes j) (
                            apart id j selects
                              (λ s. not (is_current doc current s || is_among s skip)) k.0)),
              )
        ]

  -- SelectBox.js is loaded, and neither the select of the field nor the first other has a cache.
  pub update_related_selects_options-uncached :
      (id other path repr new_id : List ℕ) (ids : List (List ℕ)) (p : SelectBox.Page) (box : Box)
      → doc.has_select_box ≡ true
      → p.cache (spell id) ≡ none
      → doc.related (model_name path none) ≡ other ∷ ids
      → equal_text id other ≡ false
      → p.boxes (spell other) ≡ some box
      → rename_first (spell (codes "null")) repr (spell new_id) box.options ≡ none
      → p.cache (spell other) ≡ none
      → update_related_selects_options doc (some id) path none repr new_id [] p ≡ none
  unfolding update_related_selects_options update_selects update_select place cache_new is_among
      add_to_cache
  update_related_selects_options-uncached id other path repr new_id ids p box loaded own related
        apart there new uncached =
      rw (related, apart, there) (rw (new, loaded, own, uncached) refl)

  pub update_related_selects_options-exact :
      doc.has_select_box ≡ false
      → (current : Option (List ℕ)) (path : List ℕ) (obj : Option (List ℕ)) (repr new_id : List ℕ)
        (skip : List (List ℕ)) (p : SelectBox.Page)
      → All (HasBox spell p) (doc.related (model_name path obj))
      → IsDistinct spell (doc.related (model_name path obj))
      → (q : SelectBox.Page) × (update_related_selects_options doc current path obj repr new_id skip
            p
          ≡ some q)
        × (q.cache ≡ p.cache)
        × ((j : String)
            → q.boxes j
              ≡ changed_box
                  (with_object obj repr new_id)
                  (is_one_of spell (taken current skip (doc.related (model_name path obj))) j)
                  (p.boxes j))
  unfolding update_related_selects_options
  update_related_selects_options-exact alone current path obj repr new_id skip p h k =
      update_selects-exact alone obj repr new_id current skip (doc.related (model_name path obj)) p
        h k
