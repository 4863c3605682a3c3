-- ===== src/Theme/Cycle.antt =====
-- The three modes, and the order in which the clicks go through them.
use Prim.Native.String.{String}
use text.Mathlib.Text.{◌==◌ as str_eq}
use text.Mathlib.TextEquality.{eq_iff}
use agentsecrets_server.Prelude.{
  List, [], ◌∷◌, ◌++◌, Option, none, some, Bool, true, false, ◌≡◌, ◌≢◌, refl, sym, ap, ◌∙◌, inl,
  inr, Bool-cases, ℕ, zero, suc, ◌%◌, arith, get_elem?, replicate,
}
use agentsecrets_server.Theme.{Document, set_theme, or_auto, cycle_theme, init_theme}

pub data Mode : Type 0 where
  light dark auto : Mode

abbrev pub name_of : Mode → String
name_of light = "light"
name_of dark = "dark"
name_of auto = "auto"

-- The specification of a click: from the system's theme to the opposite of what the system prefers,
-- then to the other one, and back to the system's.
abbrev pub after : Bool → Mode → Mode
after true auto = light
after true light = dark
after true dark = auto
after false auto = dark
after false dark = light
after false light = auto

-- The document shows the mode, and the storage keeps it.
abbrev pub showing : Mode → List String → Document
showing m errors = record { theme = some (name_of m); stored = some (name_of m); errors = errors }

-- A document in one of the modes.
abbrev pub IsThemed : Document → Type 0
IsThemed p = (m : Mode) × (errors : List String) × (p ≡ showing m errors)

set_theme-IsThemed : (mode : String) (p : Document) → IsThemed (set_theme mode p)
unfolding set_theme
set_theme-IsThemed mode p = elim (Bool-cases (str_eq mode "light")) [
  | inl e ↦ (light, p.errors, rw (e, (eq_iff mode "light").0 e))
  | inr e ↦ elim (Bool-cases (str_eq mode "dark")) [
    | inl d ↦ (dark, p.errors, rw (e, d, (eq_iff mode "dark").0 d))
    | inr d ↦ elim (Bool-cases (str_eq mode "auto")) [
      | inl a ↦ (auto, p.errors, rw (e, d, a, (eq_iff mode "auto").0 a))
      | inr a ↦ (auto, p.errors ++ mode ∷ [], rw (e, d, a))
    ]
  ]
]

cycle_theme-showing :
    (prefers_dark : Bool) (m : Mode) (errors : List String)
    → cycle_theme prefers_dark (showing m errors) ≡ showing (after prefers_dark m) errors
unfolding cycle_theme set_theme or_auto
cycle_theme-showing true light errors = refl
cycle_theme-showing true dark errors = refl
cycle_theme-showing true auto errors = refl
cycle_theme-showing false light errors = refl
cycle_theme-showing false dark errors = refl
cycle_theme-showing false auto errors = refl

init_theme-showing :
    (m : Mode) (errors : List String) → init_theme (showing m errors) ≡ showing m errors
unfolding init_theme set_theme or_auto
init_theme-showing light errors = refl
init_theme-showing dark errors = refl
init_theme-showing auto errors = refl

-- Clicks, each with what the system prefers at its time.
abbrev pub clicks : List Bool → Document → Document
clicks [] p = p
clicks (prefers_dark ∷ rest) p = clicks rest (cycle_theme prefers_dark p)

clicks-IsThemed : (prefs : List Bool) (p : Document) → IsThemed p → IsThemed (clicks prefs p)
clicks-IsThemed [] p h = h
clicks-IsThemed (d ∷ prefs) p (m, errors, e) =
    clicks-IsThemed prefs (cycle_theme d p)
      (after d m, errors, ap (cycle_theme d) e ∙ cycle_theme-showing d m errors)

init_theme-IsThemed : (p : Document) → IsThemed (init_theme p)
unfolding init_theme
init_theme-IsThemed p = set_theme-IsThemed (or_auto p.stored) p

-- Whatever the storage holds when the page loads, and whatever the clicks after that, the page and
-- the storage have the same one of the three modes, and loading again changes nothing.
init_theme-clicks :
    (prefs : List Bool) (p : Document)
    → IsThemed (clicks prefs (init_theme p))
      × (init_theme (clicks prefs (init_theme p)) ≡ clicks prefs (init_theme p))
init_theme-clicks prefs p =
    let (m, errors, e) = clicks-IsThemed prefs (init_theme p) (init_theme-IsThemed p) in
    ((m, errors, e), ap init_theme e ∙ init_theme-showing m errors ∙ sym e)

-- What the source's comments say: the automatic theme, the opposite of what the system prefers, and
-- what the system prefers.
abbrev pub order : Bool → List String
order true = "auto" ∷ "light" ∷ "dark" ∷ []
order false = "auto" ∷ "dark" ∷ "light" ∷ []

set_theme-auto :
    (stored : Option String) (p : Document)
    → stored ≢ some "light"
    → stored ≢ some "dark"
    → (errors : List String) × (set_theme (or_auto stored) p ≡ showing auto errors)
unfolding set_theme or_auto
set_theme-auto none p not_light not_dark = (p.errors, refl)
set_theme-auto (some mode) p not_light not_dark = elim (Bool-cases (str_eq mode "")) [
  | inl e ↦ (p.errors, rw e refl)
  | inr e ↦ elim (Bool-cases (str_eq mode "light")) [
    | inl l ↦ absurd (not_light (ap some ((eq_iff mode "light").0 l)))
    | inr l ↦ elim (Bool-cases (str_eq mode "dark")) [
      | inl d ↦ absurd (not_dark (ap some ((eq_iff mode "dark").0 d)))
      | inr d ↦ elim (Bool-cases (str_eq mode "auto")) [
        | inl a ↦ (p.errors, rw (e, l, d, a, (eq_iff mode "auto").0 a) refl)
        | inr a ↦ (p.errors ++ mode ∷ [], rw (e, l, d, a) refl)
      ]
    ]
  ]
]

init_theme-auto :
    (p : Document)
    → p.stored ≢ some "light"
    → p.stored ≢ some "dark"
    → (errors : List String) × (init_theme p ≡ showing auto errors)
unfolding init_theme
init_theme-auto p not_light not_dark = set_theme-auto p.stored p not_light not_dark

clicks-append :
    (xs : List Bool) (d : Bool) (p : Document)
    → clicks (xs ++ d ∷ []) p ≡ cycle_theme d (clicks xs p)
clicks-append [] d p = refl
clicks-append (x ∷ xs) d p = clicks-append xs d (cycle_theme x p)

-- Three clicks come back to the same mode.
after_three : (d : Bool) (m : Mode) → after d (after d (after d m)) ≡ m
after_three true light = refl
after_three true dark = refl
after_three true auto = refl
after_three false light = refl
after_three false dark = refl
after_three false auto = refl

three_clicks :
    (d : Bool) (m : Mode) (errors : List String)
    → clicks (d ∷ d ∷ d ∷ []) (showing m errors) ≡ showing m errors
three_clicks d m errors =
    rw
      (
        cycle_theme-showing d m errors,
        cycle_theme-showing d (after d m) errors,
        cycle_theme-showing d (after d (after d m)) errors,
        after_three d m,
      )
      refl

order_auto :
    (d : Bool) (n : ℕ) (errors : List String)
    → ((clicks (replicate n d) (showing auto errors)).theme ≡ get_elem? (order d) (n % 3))
      × ((clicks (replicate n d) (showing auto errors)).stored ≡ get_elem? (order d) (n % 3))
order_auto d zero errors = first d
  where
    first :
        (d : Bool) → (some "auto" ≡ get_elem? (order d) 0) × (some "auto" ≡ get_elem? (order d) 0)
    first true = (refl, refl)
    first false = (refl, refl)
order_auto true (suc zero) errors = rw (cycle_theme-showing true auto errors) (refl, refl)
order_auto false (suc zero) errors = rw (cycle_theme-showing false auto errors) (refl, refl)
order_auto true (suc (suc zero)) errors =
    rw (cycle_theme-showing true auto errors, cycle_theme-showing true light errors) (refl, refl)
order_auto false (suc (suc zero)) errors =
    rw (cycle_theme-showing false auto errors, cycle_theme-showing false dark errors) (refl, refl)
order_auto d (suc (suc (suc n))) errors =
    let turn : suc (suc (suc n)) % 3 ≡ n % 3 = omega arith in
    let again : clicks (replicate (suc (suc (suc n))) d) (showing auto errors)
        ≡ clicks (replicate n d) (showing auto errors) =
      ap (clicks (replicate n d)) (three_clicks d auto errors) in
    let earlier = order_auto d n errors in
    (
      ap Document.theme again ∙ earlier.0 ∙ ap (get_elem? (order d)) (sym turn),
      ap Document.stored again ∙ earlier.1 ∙ ap (get_elem? (order d)) (sym turn),
    )

-- On a page whose storage has no theme when it is loaded, or has neither "light" nor "dark", and while
-- the system's preference stays: after `n` clicks the page shows, and the storage keeps, entry `n % 3`
-- of "auto", the opposite of what the system prefers, and what it prefers.
pub cycle_theme-order :
    (prefers_dark : Bool) (n : ℕ) (p : Document)
    → p.stored ≢ some "light"
    → p.stored ≢ some "dark"
    → ((clicks (replicate n prefers_dark) (init_theme p)).theme
        ≡ get_elem? (order prefers_dark) (n % 3))
      × ((clicks (replicate n prefers_dark) (init_theme p)).stored
          ≡ get_elem? (order prefers_dark) (n % 3))
cycle_theme-order d n p not_light not_dark =
    let (errors, e) = init_theme-auto p not_light not_dark in rw e (order_auto d n errors)
