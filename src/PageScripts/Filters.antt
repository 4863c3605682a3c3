-- ===== src/PageScripts/Filters.antt =====
-- filters.js: the state of the filters that a session keeps.
use agentsecrets_server.Prelude.{
  ℕ, ◌≡◌, refl, sym, ap, ◌∙◌, List, [], ◌∷◌, Bool, true, false, Option, none, some, if◌then◌else◌,
  Bool-cases, inl, inr,
}
use agentsecrets_server.Text.Search.{equal_text, equal_text_eq, equal_text_refl}

-- A filter of a page, and an entry of the stored object.
pub record Detail : Type 0 where
  pub title : List ℕ
  pub open_state : Bool

-- The first filter with the title is opened or closed.
pub set_open : List ℕ → Bool → List Detail → List Detail
set_open title value [] = []
set_open title value (d ∷ details) =
    let rest = set_open title value details in
    if equal_text d.title title then record d { open_state = value } ∷ details else d ∷ rest

-- The loading of a page, over the entries of the stored object.
pub load : List Detail → List Detail → List Detail
unfolding set_open
load [] details = details
load (e ∷ entries) details = load entries (set_open e.title e.open_state details)

-- `filters[title] = open`
pub set_entry : List ℕ → Bool → List Detail → List Detail
set_entry title value [] = record { title = title; open_state = value } ∷ []
set_entry title value (e ∷ entries) =
    let rest = set_entry title value entries in
    if equal_text e.title title then record e { open_state = value } ∷ entries else e ∷ rest

-- The listeners, for toggles in their order; each stores the object.
pub toggles : List Detail → List Detail → List Detail
unfolding set_entry
toggles [] entries = entries
toggles (t ∷ events) entries = toggles events (set_entry t.title t.open_state entries)

-- The first of a title.
pub state_of : List ℕ → List Detail → Option Bool
state_of title [] = none
state_of title (d ∷ details) =
    let rest = state_of title details in
    if equal_text d.title title then some d.open_state else rest

-- The last of a title.
pub last_of : List ℕ → List Detail → Option Bool → Option Bool
last_of title [] before = before
last_of title (t ∷ events) before =
    last_of title events (if equal_text t.title title then some t.open_state else before)

abbrev pub restored : Option Bool → Option Bool → Option Bool
restored stored none = none
restored none (some own) = some own
restored (some value) (some own) = some value

abbrev if_none : Option Bool → Option Bool → Option Bool
if_none before none = before
if_none before (some value) = some value

if_none-some :
    (before : Option Bool) (v : Bool) (o : Option Bool)
    → if_none before (if_none (some v) o) ≡ if_none (some v) o
if_none-some before v none = refl
if_none-some before v (some w) = refl

restored-none : (own : Option Bool) → own ≡ restored none own
restored-none none = refl
restored-none (some own) = refl

as_restored :
    (c value : Bool) (own : Option Bool)
    → (if c then restored (some value) own else own) ≡ restored (if c then some value else none) own
as_restored true value own = refl
as_restored false value own = restored-none own

other_title :
    (a n title : List ℕ)
    → equal_text a n ≡ false
    → equal_text n title ≡ true
    → equal_text a title ≡ false
other_title a n title h k = ap (equal_text a) (sym (equal_text_eq n title k)) ∙ h

state_of-set_open :
    (title t : List ℕ) (value : Bool) (details : List Detail)
    → state_of title (set_open t value details) ≡ (
        if equal_text t title
        then restored (some value) (state_of title details)
        else state_of title details)
unfolding state_of set_open
state_of-set_open title t value [] = elim (Bool-cases (equal_text t title)) [
  | inl k ↦ rw k refl
  | inr k ↦ rw k refl
]
state_of-set_open title t value (d ∷ details) = elim (Bool-cases (equal_text d.title t)) [
  | inl e ↦
      let same : equal_text d.title title ≡ equal_text t title =
        ap (λ (s : List ℕ). equal_text s title) (equal_text_eq d.title t e) in
      elim (Bool-cases (equal_text t title)) [
        | inl k ↦ rw (e, same, k) refl
        | inr k ↦ rw (e, same, k) refl
      ]
  | inr e ↦
      rw (e, state_of-set_open title t value details)
        (elim (Bool-cases (equal_text t title)) [
          | inl k ↦ rw (k, other_title d.title t title e k) refl
          | inr k ↦ rw k refl
        ])
]

state_of-set_entry :
    (title t : List ℕ) (value : Bool) (entries : List Detail)
    → state_of title (set_entry t value entries)
      ≡ (if equal_text t title then some value else state_of title entries)
unfolding state_of set_entry
state_of-set_entry title t value [] = refl
state_of-set_entry title t value (d ∷ entries) = elim (Bool-cases (equal_text d.title t)) [
  | inl e ↦
      let same : equal_text d.title title ≡ equal_text t title =
        ap (λ (s : List ℕ). equal_text s title) (equal_text_eq d.title t e) in
      elim (Bool-cases (equal_text t title)) [
        | inl k ↦ rw (e, same, k) refl
        | inr k ↦ rw (e, same, k) refl
      ]
  | inr e ↦
      rw (e, state_of-set_entry title t value entries)
        (elim (Bool-cases (equal_text t title)) [
          | inl k ↦ rw (k, other_title d.title t title e k) refl
          | inr k ↦ rw k refl
        ])
]

-- What is stored for a title after toggles is its last state, or what was stored before.
state_of-toggles :
    (title : List ℕ) (events entries : List Detail)
    → state_of title (toggles events entries) ≡ last_of title events (state_of title entries)
unfolding toggles last_of
state_of-toggles title [] entries = refl
state_of-toggles title (t ∷ events) entries =
    state_of-toggles title events (set_entry t.title t.open_state entries)
    ∙ ap (last_of title events) (state_of-set_entry title t.title t.open_state entries)

restored_twice : (a b own : Option Bool) → restored a (restored b own) ≡ restored (if_none b a) own
restored_twice a b none = refl
restored_twice none none (some own) = refl
restored_twice none (some b) (some own) = refl
restored_twice (some a) none (some own) = refl
restored_twice (some a) (some b) (some own) = refl

last_of_before :
    (title : List ℕ) (events : List Detail) (before : Option Bool)
    → if_none before (last_of title events none) ≡ last_of title events before
unfolding last_of
last_of_before title [] before = refl
last_of_before title (t ∷ events) before = elim (Bool-cases (equal_text t.title title)) [
  | inl e ↦ rw e (
      ap (if_none before) (sym (last_of_before title events (some t.open_state)))
      ∙ if_none-some before t.open_state (last_of title events none)
      ∙ last_of_before title events (some t.open_state))
  | inr e ↦ rw e (last_of_before title events before)
]

-- After loading, the first filter of a title has what the stored entries say last, or its own state.
state_of-load :
    (title : List ℕ) (entries details : List Detail)
    → state_of title (load entries details)
      ≡ restored (last_of title entries none) (state_of title details)
unfolding load last_of
state_of-load title [] details = restored-none (state_of title details)
state_of-load title (e ∷ entries) details =
    state_of-load title entries (set_open e.title e.open_state details)
    ∙ ap (restored (last_of title entries none)) (
        state_of-set_open title e.title e.open_state details
        ∙ as_restored (equal_text e.title title) e.open_state (state_of title details))
    ∙ restored_twice (last_of title entries none) _ (state_of title details)
    ∙ ap (λ (o : Option Bool). restored o (state_of title details))
        (last_of_before title entries
          (if equal_text e.title title then some e.open_state else none))

-- An object has an entry for a title once.
abbrev pub IsObject : List Detail → Type 0
IsObject [] = Unit
IsObject (e ∷ entries) = (state_of e.title entries ≡ none) × IsObject entries

equal_text_sym : (a b : List ℕ) → equal_text a b ≡ false → equal_text b a ≡ false
equal_text_sym a b h = elim (Bool-cases (equal_text b a)) [
  | inl e ↦
      let q : b ≡ a = equal_text_eq b a e in
      cc (sym (equal_text_refl b) ∙ ap (λ (t : List ℕ). equal_text t b) q ∙ h)
  | inr e ↦ e
]

set_entry-IsObject :
    (t : List ℕ) (value : Bool) (entries : List Detail)
    → IsObject entries
    → IsObject (set_entry t value entries)
unfolding set_entry state_of
set_entry-IsObject t value [] h = (refl, tt)
set_entry-IsObject t value (e ∷ entries) h = elim (Bool-cases (equal_text e.title t)) [
  | inl k ↦ rw k h
  | inr k ↦ rw k (
    state_of-set_entry e.title t value entries ∙ rw (equal_text_sym e.title t k) h.0,
    set_entry-IsObject t value entries h.1,
  )
]

toggles-IsObject :
    (events entries : List Detail) → IsObject entries → IsObject (toggles events entries)
unfolding toggles
toggles-IsObject [] entries h = h
toggles-IsObject (t ∷ events) entries h =
    toggles-IsObject events (set_entry t.title t.open_state entries)
      (set_entry-IsObject t.title t.open_state entries h)

last_of-IsObject :
    (title : List ℕ) (entries : List Detail)
    → IsObject entries
    → last_of title entries none ≡ state_of title entries
unfolding last_of state_of
last_of-IsObject title [] h = refl
last_of-IsObject title (e ∷ entries) h = elim (Bool-cases (equal_text e.title title)) [
  | inl k ↦
      let q : state_of title entries ≡ none =
        ap (λ (t : List ℕ). state_of t entries) (sym (equal_text_eq e.title title k)) ∙ h.0 in
      rw k (
        sym (last_of_before title entries (some e.open_state))
        ∙ ap (if_none (some e.open_state)) (last_of-IsObject title entries h.1 ∙ q))
  | inr k ↦ rw k (last_of-IsObject title entries h.1)
]

-- After filters are opened and closed, on a page of the session that is then loaded the first filter
-- of a title is as it was left last; without a toggle, as it was stored before; else as the page has it.
pub state_of-load-toggles :
    (title : List ℕ) (events entries details : List Detail)
    → IsObject entries
    → state_of title (load (toggles events entries) details)
      ≡ restored (last_of title events (state_of title entries)) (state_of title details)
state_of-load-toggles title events entries details h =
    state_of-load title (toggles events entries) details
    ∙ ap (λ (o : Option Bool). restored o (state_of title details))
        (last_of-IsObject title (toggles events entries) (toggles-IsObject events entries h)
          ∙ state_of-toggles title events entries)
