-- ===== src/NavSidebar/Toggle.antt =====
-- The sidebar after any clicks.
use Prim.Native.String.{String}
use mathlib.Core.Path.{subst}
use text.Mathlib.Text.{◌==◌ as str_eq}
use agentsecrets_server.Prelude.{
  ℕ, zero, suc, Option, none, some, ◌≡◌, refl, sym, ap, ◌∙◌, inl, inr, Bool-cases,
}
use agentsecrets_server.NavSidebar.{Sidebar, load, click_toggle}

-- The page shows what the variable and the storage say: loading now gives the same sidebar.
abbrev pub IsStored : Sidebar → Type 0
IsStored s = load s.stored ≡ s

abbrev pub clicks : ℕ → Sidebar → Sidebar
clicks zero s = s
clicks (suc n) s = clicks n (click_toggle s)

click_toggle-IsStored : (stored : Option String) → IsStored (click_toggle (load stored))
unfolding click_toggle load
click_toggle-IsStored none = refl
click_toggle-IsStored (some s) = elim (Bool-cases (str_eq s "true")) [
  | inl e ↦ rw e refl
  | inr e ↦ rw e refl
]

clicks-IsStored : (n : ℕ) (s : Sidebar) → IsStored s → IsStored (clicks n s)
clicks-IsStored zero s h = h
clicks-IsStored (suc n) s h =
    clicks-IsStored n (click_toggle s)
      (subst (λ t. IsStored (click_toggle t)) h (click_toggle-IsStored s.stored))

load-IsStored : (stored : Option String) → IsStored (load stored)
unfolding load
load-IsStored stored = refl

shifted_lem : (s : Sidebar) → IsStored s → s.shifted ≡ str_eq s.aria_expanded "true"
unfolding load
shifted_lem s h = sym (ap Sidebar.shifted h) ∙ ap (λ (t : Sidebar). str_eq t.aria_expanded "true") h

-- Whatever the storage holds when the page loads, and after any number of clicks: loading the page
-- again gives the same sidebar, and the main part is shifted exactly while `aria-expanded` is "true".
load-clicks :
    (n : ℕ) (stored : Option String)
    → (load (clicks n (load stored)).stored ≡ clicks n (load stored))
      × ((clicks n (load stored)).shifted ≡ str_eq (clicks n (load stored)).aria_expanded "true")
load-clicks n stored =
    let h = clicks-IsStored n (load stored) (load-IsStored stored) in (h, shifted_lem _ h)
