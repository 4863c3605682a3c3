-- ===== src/Unfold/Tabs/Resize.antt =====
-- No tab is lost; those of the drop-down stand in the reverse order.
use mathlib.Core.Path.{subst}
use agentsecrets_server.Prelude.{
  ℕ, List, [], ◌∷◌, map, true, false, ◌≡◌, refl, sym, ap, ◌∙◌, ◌⊎◌, inl, inr, Bool-cases,
}
use agentsecrets_server.Unfold.Tabs.{
  Tab, Tabs, Layout, is_nil, overflows, move_out, move_back, resize,
}

-- The tabs of the list from the first to the last, and then those of the drop-down from the last to the
-- first: a tab that moves is put at the drop-down's end, so it stands before those that moved earlier
-- in the order of the tabs, but after them in the drop-down.
abbrev pub in_order : List Tab → List Tab → List Tab
in_order [] dropdown = dropdown
in_order (tab ∷ items) dropdown = in_order items (tab ∷ dropdown)

abbrev pub width_of : Tab → ℕ
width_of tab = tab.width

pub record IsKept (all : List Tab) (s : Tabs) : Type 0 where
  pub order : in_order s.items s.dropdown ≡ all
  pub measured : s.widths ≡ map width_of s.dropdown
  pub shown : s.hidden ≡ is_nil s.dropdown

-- The tabs of the list fit, or there are none.
abbrev pub Fits : Layout → Tabs → Type 0
Fits l s = (s.items ≡ []) ⊎ (overflows l s.items ≡ false)

move_out-IsKept :
    (l : Layout) (items dropdown : List Tab) (widths : List ℕ)
    → widths ≡ map width_of dropdown
    → IsKept (in_order items dropdown) (move_out l items dropdown widths)
      × Fits l (move_out l items dropdown widths)
unfolding move_out
move_out-IsKept l [] dropdown widths h =
    (record { order = refl; measured = h; shown = refl }, inl refl)
move_out-IsKept l (tab ∷ items) dropdown widths h = elim (Bool-cases (overflows l items)) [
  | inl more ↦
      rw more (move_out-IsKept l items (tab ∷ dropdown) (tab.width ∷ widths) (ap (tab.width ∷◌) h))
  | inr done ↦
      rw done (record { order = refl; measured = ap (tab.width ∷◌) h; shown = refl }, inr done)
]

move_back-IsKept :
    (l : Layout) (all : List Tab) (s : Tabs) (dropdown : List Tab) (widths : List ℕ)
    → s.dropdown ≡ dropdown
    → s.widths ≡ widths
    → IsKept all s
    → IsKept all (move_back l s dropdown widths)
unfolding move_back
move_back-IsKept l all s [] widths d w k = record {
  order = k.order;
  measured = k.measured;
  shown = sym (ap is_nil d);
}
move_back-IsKept l all s (tab ∷ dropdown) [] d w k = record {
  order = k.order;
  measured = k.measured;
  shown = sym (ap is_nil d);
}
move_back-IsKept l all s (tab ∷ dropdown) (width ∷ widths) d w k =
    elim (Bool-cases (l.is_available width s.items)) [
      | inl room ↦ rw room (record {
        order = ap (in_order s.items) (sym d) ∙ k.order;
        measured = tail (sym w ∙ k.measured ∙ ap (map width_of) d);
        shown = refl;
      })
      | inr full ↦
          rw full (record { order = k.order; measured = k.measured; shown = sym (ap is_nil d) })
    ]
  where
    tail : {x y : ℕ} {xs ys : List ℕ} → (x ∷ xs) ≡ (y ∷ ys) → xs ≡ ys
    tail e = cc e

resize-IsKept : (l : Layout) (all : List Tab) (s : Tabs) → IsKept all s → IsKept all (resize l s)
unfolding resize
resize-IsKept l all s k = elim (Bool-cases (overflows l s.items)) [
  | inl over ↦ rw over (
      subst (λ (a : List Tab). IsKept a (move_out l s.items s.dropdown s.widths)) k.order
        (move_out-IsKept l s.items s.dropdown s.widths k.measured).0)
  | inr fits ↦ rw fits (move_back-IsKept l all s s.dropdown s.widths refl refl k)
]

-- Any resizes of the window, each with what the browser measures then.
abbrev pub resizes : List Layout → Tabs → Tabs
resizes [] s = s
resizes (l ∷ layouts) s = resizes layouts (resize l s)

resizes-IsKept :
    (layouts : List Layout) (all : List Tab) (s : Tabs)
    → IsKept all s
    → IsKept all (resizes layouts s)
resizes-IsKept [] all s k = k
resizes-IsKept (l ∷ layouts) all s k =
    resizes-IsKept layouts all (resize l s) (resize-IsKept l all s k)

-- All the tabs in the list, given from the last to the first.
abbrev pub start : List Tab → Tabs
start items = record { items = items; dropdown = []; widths = []; hidden = true }

-- From tabs that are all in the list, and after any resizes: the tabs of the list from first to last,
-- followed by those of the drop-down from its last to its first, are all the tabs in their order, so
-- that the drop-down has its tabs in the reverse of it; the stack of widths measures those of the
-- drop-down, which is hidden exactly when it has none; and after one more resize for which the tabs are
-- too wide, those left in the list fit, or there are none.
pub resizes-IsKept-start :
    (layouts : List Layout) (l : Layout) (items : List Tab)
    → IsKept (in_order items []) (resizes layouts (start items))
      × (overflows l (resizes layouts (start items)).items ≡ true
          → Fits l (resize l (resizes layouts (start items))))
unfolding resize
resizes-IsKept-start layouts l items =
    let s = resizes layouts (start items) in
    let kept =
      resizes-IsKept layouts (in_order items []) (start items)
        (record { order = refl; measured = refl; shown = refl }) in
    (kept, λ over. rw over (move_out-IsKept l s.items s.dropdown s.widths kept.measured).1)
