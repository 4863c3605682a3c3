-- ===== src/Urlify/Downcode/Laws.antt =====
-- Which table decides, and what `downcode` does with ASCII.
use Prim.Native.String.{String}
use agentsecrets_server.Prelude.{
  ℕ, ◌≤◌, ◌<◌, List, [], ◌∷◌, ◌≡◌, refl, ap, sym, ◌∙◌, ◌⊎◌, inl, inr, Option, none, some, Bool,
  true, false, ◌&&◌, if◌then◌else◌, ◌==◌, leb, ltb, All, All-append, arith,
}
use agentsecrets_server.Text.{codes}
use agentsecrets_server.Urlify.Downcode.{
  Table, all_downcode_maps, get, put, object_assign, merge, downcoder_map, replacement, downcode,
}

abbrev pub or_else {ℓ} : {A : Type ℓ} → Option A → Option A → Option A
or_else none d = d
or_else (some a) d = some a

-- The binding of a key that stands last in a table.
abbrev pub last_in : ℕ → Table → Option String
last_in k [] = none
last_in k ((j, v) ∷ t) = or_else (last_in k t) (if j == k then some v else none)

-- The binding of the last table that has one.
abbrev pub latest : ℕ → List Table → Option String
latest k [] = none
latest k (t ∷ ts) = or_else (latest k ts) (last_in k t)

get-put :
    (k j : ℕ) (v : String) (t : Table) → get j (put k v t) ≡ (if k == j then some v else get j t)
unfolding get put
get-put k j v [] = refl
get-put k j v ((i, w) ∷ t) = ground (arith, get-put k j v t)

or_else_assoc {ℓ} :
    {A : Type ℓ} (a b c : Option A) → or_else (or_else a b) c ≡ or_else a (or_else b c)
or_else_assoc none b c = refl
or_else_assoc (some a) b c = refl

get-put-or_else :
    (k j : ℕ) (v : String) (t : Table)
    → get j (put k v t) ≡ or_else (if k == j then some v else none) (get j t)
get-put-or_else k j v t = ground (arith, get-put k j v t)

get-object_assign :
    (k : ℕ) (target source : Table)
    → get k (object_assign target source) ≡ or_else (last_in k source) (get k target)
unfolding object_assign
get-object_assign k target [] = refl
get-object_assign k target ((j, v) ∷ source) =
    get-object_assign k (put j v target) source
    ∙ ap (or_else (last_in k source)) (get-put-or_else j k v target)
    ∙ sym (or_else_assoc (last_in k source) _ _)

get-merge :
    (k : ℕ) (target : Table) (tables : List Table)
    → get k (merge target tables) ≡ or_else (latest k tables) (get k target)
unfolding merge
get-merge k target [] = refl
get-merge k target (t ∷ tables) =
    get-merge k (object_assign target t) tables
    ∙ ap (or_else (latest k tables)) (get-object_assign k target t)
    ∙ sym (or_else_assoc (latest k tables) _ _)

or_else-none {ℓ} : {A : Type ℓ} (a : Option A) → or_else a none ≡ a
or_else-none none = refl
or_else-none (some a) = refl

-- A character that several tables list is replaced as the last of them says.
get-downcoder_map : (k : ℕ) → get k downcoder_map ≡ latest k all_downcode_maps
unfolding downcoder_map get
get-downcoder_map k = get-merge k [] all_downcode_maps ∙ or_else-none _

-- Keys outside ASCII, values within it.
all_ascii : List ℕ → Bool
all_ascii [] = true
all_ascii (c ∷ s) = ltb c 128 && all_ascii s

fits : Table → Bool
fits [] = true
fits ((k, v) ∷ t) = leb 128 k && all_ascii (codes v) && fits t

all_fit : List Table → Bool
all_fit [] = true
all_fit (t ∷ ts) = fits t && all_fit ts

tables_fit : all_fit all_downcode_maps ≡ true
unfolding all_fit fits all_ascii
tables_fit = refl

abbrev pub IsAscii : ℕ → Type 0
IsAscii c = c < 128

all_ascii-IsAscii : (s : List ℕ) → all_ascii s ≡ true → All IsAscii s
unfolding all_ascii
all_ascii-IsAscii [] h = tt
all_ascii-IsAscii (c ∷ s) h = (ground arith, all_ascii-IsAscii s (ground arith))

-- What an entry of a table that fits is.
abbrev Fits : ℕ → Option String → Type 0
Fits k none = Unit
Fits k (some v) = (128 ≤ k) × All IsAscii (codes v)

last_in-Fits : (k : ℕ) (t : Table) → fits t ≡ true → Fits k (last_in k t)
unfolding fits
last_in-Fits k [] h = tt
last_in-Fits k ((j, v) ∷ t) h = pick (last_in k t) (last_in-Fits k t (ground arith))
  where
    here : (b : Bool) → (j == k) ≡ b → Fits k (if b then some v else none)
    here true e = (ground arith, all_ascii-IsAscii (codes v) (ground arith))
    here false e = tt

    pick : (o : Option String) → Fits k o → Fits k (or_else o (if j == k then some v else none))
    pick none f = here (j == k) refl
    pick (some w) f = f

latest-Fits : (k : ℕ) (ts : List Table) → all_fit ts ≡ true → Fits k (latest k ts)
unfolding all_fit
latest-Fits k [] h = tt
latest-Fits k (t ∷ ts) h = pick (latest k ts) (latest-Fits k ts (ground arith))
  where
    pick : (o : Option String) → Fits k o → Fits k (or_else o (last_in k t))
    pick none f = last_in-Fits k t (ground arith)
    pick (some w) f = f

get-Fits : (k : ℕ) → Fits k (get k downcoder_map)
get-Fits k = rw get-downcoder_map (latest-Fits k all_downcode_maps tables_fit)

replacement_ascii : (c : ℕ) (o : Option String) → Fits c o → IsAscii c → replacement c o ≡ c ∷ []
unfolding replacement
replacement_ascii c none f h = refl
replacement_ascii c (some v) f h = absurd (omega arith)

-- A text of ASCII alone is left as it is.
pub downcode_ascii : (s : List ℕ) → All IsAscii s → downcode s ≡ s
unfolding downcode
downcode_ascii [] h = refl
downcode_ascii (c ∷ s) h =
    rw (replacement_ascii c (get c downcoder_map) (get-Fits c) h.0)
      (ap (c ∷◌) (downcode_ascii s h.1))

-- What a character of the result is: in ASCII, or a character that no table lists.
abbrev pub IsDowncoded : ℕ → Type 0
IsDowncoded c = IsAscii c ⊎ (latest c all_downcode_maps ≡ none)

replacement-IsDowncoded :
    (c : ℕ) (o : Option String)
    → latest c all_downcode_maps ≡ o
    → Fits c o
    → All IsDowncoded (replacement c o)
unfolding replacement
replacement-IsDowncoded c none e f = (inr e, tt)
replacement-IsDowncoded c (some v) e f = go (codes v) f.1
  where
    go : (s : List ℕ) → All IsAscii s → All IsDowncoded s
    go [] h = tt
    go (d ∷ s) h = (inl h.0, go s h.1)

-- Every character of the result is in ASCII, or none of the tables lists it.
downcode-IsDowncoded : (s : List ℕ) → All IsDowncoded (downcode s)
unfolding downcode
downcode-IsDowncoded [] = tt
downcode-IsDowncoded (c ∷ s) =
    All-append IsDowncoded (replacement c (get c downcoder_map)) (downcode s)
      (replacement-IsDowncoded c (get c downcoder_map) (sym (get-downcoder_map c)) (get-Fits c))
      (downcode-IsDowncoded s)
