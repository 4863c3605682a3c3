-- ===== src/RelatedPopups/Dismiss/Deleted.antt =====
-- What a page shows after an object has been deleted.
use Prim.Native.String.{String}
use text.Mathlib.Text.{◌==◌ as str_eq}
use text.Mathlib.TextEquality.{eq_iff}
use text.Mathlib.TextPositions.{eq_refl}
use mathlib.Core.Option
use agentsecrets_server.Prelude.{
  ℕ, List, [], ◌∷◌, Bool, true, false, not, ◌||◌, ◌≡◌, refl, sym, ap, ◌∙◌, Option, none, some, map,
  keep, arith, Bool-cases, Option-cases, inl, inr,
}
use agentsecrets_server.Text.{codes}
use agentsecrets_server.SelectBox.{Item, Box, Node, redisplay, option_of, is_displayed}
use agentsecrets_server.SelectBox
use agentsecrets_server.RelatedPopups.{remove_popup_index}
use agentsecrets_server.RelatedPopups.Windows.{Window, forget, remove_start}
use agentsecrets_server.RelatedPopups.Options.{State, Document}
use agentsecrets_server.RelatedPopups.Options.Related.{is_one_of, changed_box}
use agentsecrets_server.RelatedPopups.Dismiss.{select_ids, change_box, change_all, dismiss_delete}

-- The options of a box of a page, where the page is there.
abbrev pub options_at : String → Option SelectBox.Page → Option (List Item)
options_at j none = none
options_at j (some p) = Option.map (λ (box : Box). box.options) (p.boxes j)

abbrev pub without : String → List Item → List Item
without value options = keep (λ (o : Item). not (str_eq o.value value)) options

changed_box_twice :
    (f : List Item → List Item) (a b : Bool) (box : Option Box)
    → ((options : List Item) → f (f options) ≡ f options)
    → changed_box f b (changed_box f a box) ≡ changed_box f (a || b) box
changed_box_twice f true true none h = refl
changed_box_twice f true true (some box) h =
    ap (λ (options : List Item). some (record box { options = options })) (h box.options)
changed_box_twice f true false none h = refl
changed_box_twice f true false (some box) h = refl
changed_box_twice f false b box h = refl

module _ (doc : Document) (f : List Item → List Item) where
  open doc use {spell}

  change_box-boxes :
      (id : List ℕ) (box : Option Box) (s : State) (j : String)
      → s.selects.boxes (spell id) ≡ box
      → (change_box doc f id box s).selects.boxes j
        ≡ changed_box f (str_eq (spell id) j) (s.selects.boxes j)
  change_box-boxes id box s j there = elim (Bool-cases (str_eq (spell id) j)) [
    | inl e ↦
        let q : spell id ≡ j = ground (arith, eq_iff (spell id) j, e) in
        same box (sym (ap s.selects.boxes q) ∙ there) e
    | inr e ↦ different box e
  ]
    where
      same :
          (box : Option Box)
          → s.selects.boxes j ≡ box
          → str_eq (spell id) j ≡ true
          → (change_box doc f id box s).selects.boxes j
            ≡ changed_box f (str_eq (spell id) j) (s.selects.boxes j)
      same none there e = rw (e, there) refl
      same (some box) there e = rw (e, there) refl

      different :
          (box : Option Box)
          → str_eq (spell id) j ≡ false
          → (change_box doc f id box s).selects.boxes j
            ≡ changed_box f (str_eq (spell id) j) (s.selects.boxes j)
      different none e = rw e refl
      different (some box) e = rw e refl

  change_box-cache :
      (id : List ℕ) (box : Option Box) (s : State)
      → (change_box doc f id box s).selects.cache ≡ s.selects.cache
  change_box-cache id none s = refl
  change_box-cache id (some box) s = refl

  change_box-page :
      (id : List ℕ) (box : Option Box) (s : State) → (change_box doc f id box s).page ≡ s.page
  change_box-page id none s = refl
  change_box-page id (some box) s = refl

  change_all-boxes :
      (idempotent : (options : List Item) → f (f options) ≡ f options) (ids : List (List ℕ))
      (s : State) (j : String)
      → (change_all doc f ids s).selects.boxes j
        ≡ changed_box f (is_one_of spell ids j) (s.selects.boxes j)
  unfolding change_all is_one_of
  change_all-boxes idempotent [] s j = refl
  change_all-boxes idempotent (id ∷ ids) s j =
      change_all-boxes idempotent ids (change_box doc f id (s.selects.boxes (spell id)) s) j
      ∙ ap (changed_box f (is_one_of spell ids j))
          (change_box-boxes id (s.selects.boxes (spell id)) s j refl)
      ∙ changed_box_twice f (str_eq (spell id) j) (is_one_of spell ids j) (s.selects.boxes j)
          idempotent

  change_all-cache :
      (ids : List (List ℕ)) (s : State) → (change_all doc f ids s).selects.cache ≡ s.selects.cache
  unfolding change_all
  change_all-cache [] s = refl
  change_all-cache (id ∷ ids) s =
      change_all-cache ids (change_box doc f id (s.selects.boxes (spell id)) s)
      ∙ change_box-cache id (s.selects.boxes (spell id)) s

  change_all-page : (ids : List (List ℕ)) (s : State) → (change_all doc f ids s).page ≡ s.page
  unfolding change_all
  change_all-page [] s = refl
  change_all-page (id ∷ ids) s =
      change_all-page ids (change_box doc f id (s.selects.boxes (spell id)) s)
      ∙ change_box-page id (s.selects.boxes (spell id)) s

without_twice :
    (value : String) (options : List Item)
    → without value (without value options) ≡ without value options
without_twice value [] = refl
without_twice value (o ∷ options) = elim (Bool-cases (str_eq o.value value)) [
  | inl e ↦ rw (e, keep) (without_twice value options)
  | inr e ↦ rw (e, keep, e) (ap (o ∷◌) (without_twice value options))
]

-- What `redisplay` puts into a box.
abbrev shown : Option Box → Option (List Node) → Option (List Item)
shown none nodes = none
shown (some box) none = none
shown (some box) (some nodes) = some (map option_of (keep is_displayed nodes))

redisplay-shown :
    (j : String) (p : SelectBox.Page) → options_at j (redisplay j p) ≡ shown (p.boxes j) (p.cache j)
unfolding redisplay
redisplay-shown j p = elim (Option-cases (p.boxes j)) [
  | inl m ↦ rw m refl
  | inr (box, m) ↦ elim (Option-cases (p.cache j)) [
    | inl n ↦ rw (m, n) refl
    | inr (nodes, n) ↦ rw (m, n) (simp eq_refl)
  ]
]

shown_changed :
    (f : List Item → List Item) (c : Bool) (box : Option Box) (nodes : Option (List Node))
    → shown (changed_box f c box) nodes ≡ shown box nodes
shown_changed f false box nodes = refl
shown_changed f true none nodes = refl
shown_changed f true (some box) none = refl
shown_changed f true (some box) (some nodes) = refl

redisplay_changed :
    (f : List Item → List Item) (j : String) (p q : SelectBox.Page) (c : Bool)
    → q.cache ≡ p.cache
    → q.boxes j ≡ changed_box f c (p.boxes j)
    → options_at j (redisplay j q) ≡ options_at j (redisplay j p)
redisplay_changed f j p q c same changed =
    redisplay-shown j q
    ∙ ap (λ (box : Option Box). shown box (q.cache j)) changed
    ∙ ap (λ (cache : String → Option (List Node)). shown (changed_box f c (p.boxes j)) (cache j))
        same
    ∙ shown_changed f c (p.boxes j) (p.cache j)
    ∙ sym (redisplay-shown j p)

-- The window in which an object has been deleted is closed and forgotten. The options with its value
-- are gone from the selects with the field's id, also with `_from` or `_to`, and every other box and
-- every cache is as before; so a select is shown again, as by its filter, with the options of its
-- cache, the deleted one included, as if nothing had been deleted.
pub dismiss_delete-redisplay :
    (doc : Document) (win : Window) (id obj : List ℕ) (s : State) (j : String)
    → remove_popup_index s.page.popup_index (remove_start (codes "delete_" ∷ []) win.name) ≡ id
    → ((dismiss_delete doc win obj s).selects.boxes j
        ≡ changed_box
            (without (doc.spell obj))
            (is_one_of doc.spell (select_ids id) j)
            (s.selects.boxes j))
      × ((dismiss_delete doc win obj s).selects.cache ≡ s.selects.cache)
      × ((dismiss_delete doc win obj s).page ≡ record s.page {
        related_windows = forget win.number s.page.related_windows;
        closed = win.number ∷ s.page.closed;
      })
      × (options_at j (redisplay j (dismiss_delete doc win obj s).selects)
          ≡ options_at j (redisplay j s.selects))
unfolding dismiss_delete
dismiss_delete-redisplay doc win id obj s j named =
    let f : List Item → List Item = without (doc.spell obj) in
    let boxes = change_all-boxes doc f (without_twice (doc.spell obj)) (select_ids id) s j in
    let cache = change_all-cache doc f (select_ids id) s in
    rw named (
      boxes,
      cache,
      rw (change_all-page doc f (select_ids id) s) refl,
      redisplay_changed f j s.selects _ (is_one_of doc.spell (select_ids id) j) cache boxes,
    )
