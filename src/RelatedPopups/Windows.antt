-- ===== src/RelatedPopups/Windows.antt =====
-- RelatedObjectLookups.js: the windows that a page opens for the objects of its fields, and what a
-- lookup window writes into the field.
use agentsecrets_server.Prelude.{
  ◌>>=◌, ℕ, ◌≡◌, refl, Bool, true, false, not, ◌&&◌, Option, none, some, List, [], ◌∷◌, ◌++◌, map,
  length, drop, if◌then◌else◌, ◌==◌, arith, All,
}
use agentsecrets_server.Prelude.Int.{ℤ}
use agentsecrets_server.Text.{codes}
use agentsecrets_server.Text.Search.{equal_text, starts_with, starts_with-append}
use agentsecrets_server.RelatedPopups.{add_popup_index, remove_popup_index}
use agentsecrets_server.RelatedPopups.Names.{remove_popup_index-add}

-- A window, by the number that stands for the object.
pub record Window : Type 0 where
  pub number : ℕ
  pub name : List ℕ
  pub href : List ℕ

-- An `<input>`, and whether it has the class `vManyToManyRawIdAdminField`.
pub record Field : Type 0 where
  pub value : List ℕ
  pub many : Bool

-- A page with its `popupIndex`, its fields by id, its windows, and those that have been closed.
pub record Page : Type 0 where
  pub popup_index : Option ℤ
  pub fields : List ℕ → Option Field
  pub related_windows : List Window
  pub closed : List ℕ

-- `id.replace(/^(a|b|c)_/, "")`, with the texts that the expression knows.
pub remove_start : List (List ℕ) → List ℕ → List ℕ
unfolding starts_with
remove_start [] id = id
remove_start (s ∷ starts) id =
    let rest = remove_start starts id in if starts_with s id then drop (length s) id else rest

-- `number` is that of the window which `window.open` gives; `set_popup` sets the parameter `_popup` of
-- a URL.
unfoldable pub show_admin_popup :
    (List ℕ → List ℕ) → ℕ → List (List ℕ) → Bool → List ℕ → List ℕ → Page → Window × Page
unfolding remove_start
show_admin_popup set_popup number starts add_popup id href p =
    let win : Window = record {
      number = number;
      name = add_popup_index p.popup_index (remove_start starts id);
      href = if add_popup then set_popup href else href;
    } in
    (win, record p { related_windows = p.related_windows ++ win ∷ [] })

unfoldable pub show_related_object_lookup_popup :
    (List ℕ → List ℕ) → ℕ → List ℕ → List ℕ → Page → Window × Page
unfolding show_admin_popup
show_related_object_lookup_popup set_popup number id href p =
    show_admin_popup set_popup number (codes "lookup_" ∷ []) true id href p

unfoldable pub show_related_object_popup :
    (List ℕ → List ℕ) → ℕ → List ℕ → List ℕ → Page → Window × Page
unfolding show_admin_popup
show_related_object_popup set_popup number id href p =
    show_admin_popup set_popup number (codes "change_" ∷ codes "add_" ∷ codes "delete_" ∷ []) false
      id href p

-- `relatedWindows.splice(index, 1)`, where the window is there.
pub forget : ℕ → List Window → List Window
forget number [] = []
forget number (w ∷ windows) =
    let rest = forget number windows in if w.number == number then windows else w ∷ rest

-- The value after a choice.
pub chosen_value : List ℕ → Field → List ℕ
chosen_value chosen f =
    if f.many && not (equal_text f.value []) then f.value ++ b',' ∷ chosen else chosen

abbrev pub set_field : (List ℕ → Option Field) → List ℕ → Field → List ℕ → Option Field
set_field fields id f other = if equal_text other id then some f else fields other

unfoldable pub dismiss_related_lookup_popup : Window → List ℕ → Page → Option Page
unfolding forget chosen_value
dismiss_related_lookup_popup win chosen p = do
  let id = remove_popup_index p.popup_index win.name
  f ← p.fields id
  some (record p {
    fields = set_field p.fields id (record f { value = chosen_value chosen f });
    related_windows = forget win.number p.related_windows;
    closed = win.number ∷ p.closed;
  })

-- A link beside a select, `view`, `change` or `delete`.
pub record Link : Type 0 where
  pub template : List ℕ
  pub href : Option (List ℕ)
  pub aria_disabled : Bool

-- `updateRelatedObjectLinks` of the links that it finds; `replace_fk` is
-- `template.replace("__fk__", value)`.
unfoldable pub update_related_object_links :
    (List ℕ → List ℕ → List ℕ) → List ℕ → List Link → List Link
update_related_object_links replace_fk [] links =
    map (λ (l : Link). record l { href = none; aria_disabled = true }) links
update_related_object_links replace_fk (c ∷ value) links =
    map
      (λ (l : Link). record l {
        href = some (replace_fk l.template (c ∷ value));
        aria_disabled = false;
      })
      links

pub remove_start-prefix : (s t : List ℕ) → remove_start (s ∷ []) (s ++ t) ≡ t
unfolding remove_start
remove_start-prefix s t = rw (starts_with-append s t) (drop-append s t)
  where
    drop-append : (s t : List ℕ) → drop (length s) (s ++ t) ≡ t
    drop-append [] t = refl
    drop-append (c ∷ s) t = drop-append s t

forget-append :
    (w : Window) (windows : List Window)
    → All (λ (v : Window). (v.number == w.number) ≡ false) windows
    → forget w.number (windows ++ w ∷ []) ≡ windows
unfolding forget
forget-append w [] h = ground arith
forget-append w (v ∷ windows) h = rw (h.0, forget-append w windows h.1) refl

-- A lookup that is opened for a field of the page, in a window that the page does not hold yet, and in
-- which an object is chosen: the field of the link's id has the object's, after a comma where it takes
-- several and has some; the window is closed, and the page holds the windows that it held before.
pub dismiss_related_lookup_popup-show_related_object_lookup_popup :
    (set_popup : List ℕ → List ℕ) (number : ℕ) (id href chosen : List ℕ) (p : Page) (f : Field)
    → p.fields id ≡ some f
    → All (λ (v : Window). (v.number == number) ≡ false) p.related_windows
    → dismiss_related_lookup_popup
        (show_related_object_lookup_popup set_popup number (codes "lookup_" ++ id) href p).0
        chosen
        (show_related_object_lookup_popup set_popup number (codes "lookup_" ++ id) href p).1
      ≡ some (record p {
        fields = set_field p.fields id (record f {
          value =
              if f.many && not (equal_text f.value []) then f.value ++ b',' ∷ chosen else chosen;
        });
        closed = number ∷ p.closed;
      })
unfolding dismiss_related_lookup_popup show_related_object_lookup_popup show_admin_popup
    chosen_value
dismiss_related_lookup_popup-show_related_object_lookup_popup set_popup number id href chosen p f
      there fresh =
    let win : Window = record {
      number = number;
      name = add_popup_index p.popup_index id;
      href = set_popup href;
    } in
    rw
      (
        remove_start-prefix (codes "lookup_") id,
        remove_popup_index-add p.popup_index id,
        there,
        forget-append win p.related_windows fresh,
      )
      refl
