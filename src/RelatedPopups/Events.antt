-- ===== src/RelatedPopups/Events.antt =====
-- RelatedObjectLookups.js: the clicks on the links beside a field, and what happens to the windows that
-- a page has opened when it is unloaded.
use agentsecrets_server.Prelude.{
  ℕ, List, [], ◌∷◌, Bool, true, false, not, ◌&&◌, ◌||◌, ◌≡◌, refl, Option, none, some,
  if◌then◌else◌, arith,
}
use agentsecrets_server.RelatedPopups.Windows.{
  Window, Page, Link, show_related_object_popup, show_related_object_lookup_popup,
  update_related_object_links,
}

-- A click on a link that opens a window; `prevented` says that a listener of `django:show-related` has
-- prevented the default.
pub click_related_link :
    (List ℕ → List ℕ) → ℕ → Bool → List ℕ → List ℕ → Page → Option Window × Page
click_related_link set_popup number prevented id [] p = (none, p)
click_related_link set_popup number prevented id (c ∷ href) p =
    let (win, after) = show_related_object_popup set_popup number id (c ∷ href) p in
    if prevented then (none, p) else (some win, after)

-- A click on the lens of a field, with `django:lookup-related`.
pub click_related_lookup :
    (List ℕ → List ℕ) → ℕ → Bool → List ℕ → List ℕ → Page → Option Window × Page
click_related_lookup set_popup number prevented id href p =
    let (win, after) = show_related_object_lookup_popup set_popup number id href p in
    if prevented then (none, p) else (some win, after)

-- A change of a select, with `django:update-related`.
pub change_select : (List ℕ → List ℕ → List ℕ) → Bool → List ℕ → List Link → List Link
change_select replace_fk prevented value links =
    if prevented then links else update_related_object_links replace_fk value links

-- A window, whether it is closed, and the windows that its page holds.
mutual
  pub data Popup : Type 0 where
    popup : Bool → Popups → Popup

  pub data Popups : Type 0 where
    no_windows : Popups
    first_window : Popup → Popups → Popups

-- `dismissChildPopups`, of the windows that a page holds.
pub dismiss_child_popups : Popups → Popups
dismiss_child_popups no_windows = no_windows
dismiss_child_popups (first_window (popup true below) after) =
    first_window (popup true below) (dismiss_child_popups after)
dismiss_child_popups (first_window (popup false below) after) =
    first_window (popup true (dismiss_child_popups below)) (dismiss_child_popups after)

pub all_closed : Popups → Bool
all_closed no_windows = true
all_closed (first_window (popup closed below) after) =
    closed && (all_closed below && all_closed after)

-- A window that is closed holds only closed ones.
pub is_orderly : Popups → Bool
unfolding all_closed
is_orderly no_windows = true
is_orderly (first_window (popup closed below) after) =
    (not closed || all_closed below) && (is_orderly below && is_orderly after)

and_parts : (a b : Bool) → (a && b) ≡ true → (a ≡ true) × (b ≡ true)
and_parts a b h = (ground arith, ground arith)

and_true : (a b : Bool) → a ≡ true → b ≡ true → (a && b) ≡ true
and_true a b h k = ground arith

-- Where a closed window holds only closed ones, all windows are closed afterwards, at any depth.
dismiss_child_popups-all_closed :
    (windows : Popups)
    → is_orderly windows ≡ true
    → all_closed (dismiss_child_popups windows) ≡ true
unfolding dismiss_child_popups all_closed is_orderly
dismiss_child_popups-all_closed no_windows h = refl
dismiss_child_popups-all_closed (first_window (popup true below) after) h =
    let (closed, orderly) = and_parts (all_closed below) (is_orderly below && is_orderly after) h in
    let (_, rest) = and_parts (is_orderly below) (is_orderly after) orderly in
    and_true (all_closed below) _ closed (dismiss_child_popups-all_closed after rest)
dismiss_child_popups-all_closed (first_window (popup false below) after) h =
    let (inner, rest) = and_parts (is_orderly below) (is_orderly after) h in
    and_true (all_closed (dismiss_child_popups below)) (all_closed (dismiss_child_popups after))
      (dismiss_child_popups-all_closed below inner) (dismiss_child_popups-all_closed after rest)
