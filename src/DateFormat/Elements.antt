-- ===== src/DateFormat/Elements.antt =====
-- core.js: the helpers for elements of the page. `none` is a `TypeError`.
use agentsecrets_server.Prelude.{
  ℕ, zero, suc, ◌≡◌, refl, sym, ap, ◌∙◌, true, false, Option, none, some, List, [], ◌∷◌, ◌++◌,
  if◌then◌else◌, arith, Bool-cases, inl, inr, length,
}
use agentsecrets_server.Prelude.Int.{ℤ, pos, ◌+ℤ◌, neg}
use agentsecrets_server.Text.{codes}
use agentsecrets_server.Text.Search.{equal_text, equal_text_eq}

pub record Attribute : Type 0 where
  pub name : List ℕ
  pub value : List ℕ

-- An element that `quickElement` makes: its tag, its text, and its attributes.
pub record Created : Type 0 where
  pub tag : List ℕ
  pub text : Option (List ℕ)
  pub attributes : List Attribute

-- `setAttribute`
pub set_attribute : List ℕ → List ℕ → List Attribute → List Attribute
set_attribute name value [] = record { name = name; value = value } ∷ []
set_attribute name value (a ∷ attributes) =
    let rest = set_attribute name value attributes in
    if equal_text a.name name then record a { value = value } ∷ attributes else a ∷ rest

-- The loop over the arguments from the fourth on; a name without a value gets `undefined`.
pub set_attributes : List (List ℕ) → List Attribute → List Attribute
unfolding set_attribute
set_attributes [] attributes = attributes
set_attributes (name ∷ []) attributes = set_attribute name (codes "undefined") attributes
set_attributes (name ∷ value ∷ arguments) attributes =
    set_attributes arguments (set_attribute name value attributes)

abbrev text_node : List ℕ → Option (List ℕ)
text_node [] = none
text_node (c ∷ text) = some (c ∷ text)

-- `quickElement`, with the children of the parent afterwards.
pub quick_element : List ℕ → List Created → List ℕ → List (List ℕ) → Created × List Created
unfolding set_attributes
quick_element tag children text arguments =
    let obj : Created = record {
      tag = tag;
      text = text_node text;
      attributes = set_attributes arguments [];
    } in
    (obj, children ++ obj ∷ [])

-- `a.removeChild(a.lastChild)`, where `a` has children.
abbrev without_last : {A : Type 0} → A → List A → List A
without_last a [] = []
without_last a (b ∷ children) = a ∷ without_last b children

-- The loop of `removeChildren`, for a number of rounds.
pub remove_rounds : {A : Type 0} → ℕ → List A → List A
remove_rounds zero children = children
remove_rounds (suc rounds) [] = []
remove_rounds (suc rounds) (a ∷ children) = remove_rounds rounds (without_last a children)

-- `removeChildren`: each round takes one child away.
pub remove_children : {A : Type 0} → List A → List A
unfolding remove_rounds
remove_children children = remove_rounds (length children) children

-- What the browser measures of an element; `x` and `y` are 0 where they are missing.
pub record Measured : Type 0 where
  pub offset_left : ℤ
  pub offset_top : ℤ
  pub scroll_left : ℤ
  pub scroll_top : ℤ
  pub x : ℤ
  pub y : ℤ

-- The loop of `findPosX`, over the chain of the `offsetParent`s.
pub sum_left : ℤ → Measured → List Measured → ℤ
sum_left curleft obj [] = curleft
sum_left curleft obj (parent ∷ parents) =
    sum_left (curleft +ℤ (obj.offset_left +ℤ neg obj.scroll_left)) parent parents

pub find_pos_x : Measured → List Measured → ℤ
unfolding sum_left
find_pos_x obj [] = obj.x
find_pos_x obj (parent ∷ parents) = sum_left (pos 0) obj (parent ∷ parents)

pub sum_top : ℤ → Measured → List Measured → ℤ
sum_top curtop obj [] = curtop
sum_top curtop obj (parent ∷ parents) =
    sum_top (curtop +ℤ (obj.offset_top +ℤ neg obj.scroll_top)) parent parents

pub find_pos_y : Measured → List Measured → ℤ
unfolding sum_top
find_pos_y obj [] = obj.y
find_pos_y obj (parent ∷ parents) = sum_top (pos 0) obj (parent ∷ parents)

pub get_attribute : List ℕ → List Attribute → Option (List ℕ)
get_attribute name [] = none
get_attribute name (a ∷ attributes) =
    let rest = get_attribute name attributes in
    if equal_text a.name name then some a.value else rest

-- The value of a name in the arguments, the last one given.
pub given_value : List ℕ → List (List ℕ) → Option (List ℕ) → Option (List ℕ)
given_value name [] before = before
given_value name (n ∷ []) before = if equal_text n name then some (codes "undefined") else before
given_value name (n ∷ value ∷ arguments) before =
    given_value name arguments (if equal_text n name then some value else before)

other_name :
    (a n name : List ℕ)
    → equal_text a n ≡ false
    → equal_text n name ≡ true
    → equal_text a name ≡ false
other_name a n name h k = ap (equal_text a) (sym (equal_text_eq n name k)) ∙ h

get_attribute-set_attribute :
    (name n value : List ℕ) (attributes : List Attribute)
    → get_attribute name (set_attribute n value attributes)
      ≡ (if equal_text n name then some value else get_attribute name attributes)
unfolding get_attribute set_attribute
get_attribute-set_attribute name n value [] = refl
get_attribute-set_attribute name n value (a ∷ attributes) =
    elim (Bool-cases (equal_text a.name n)) [
      | inl e ↦
          let same : equal_text a.name name ≡ equal_text n name =
            ap (λ (t : List ℕ). equal_text t name) (equal_text_eq a.name n e) in
          elim (Bool-cases (equal_text n name)) [
            | inl k ↦ rw (e, same, k) refl
            | inr k ↦ rw (e, same, k) refl
          ]
      | inr e ↦
          rw (e, get_attribute-set_attribute name n value attributes)
            (elim (Bool-cases (equal_text n name)) [
              | inl k ↦ rw (k, other_name a.name n name e k) refl
              | inr k ↦ rw k refl
            ])
    ]

-- An element that is made has for each name the value that is given last.
get_attribute-set_attributes :
    (name : List ℕ) (arguments : List (List ℕ)) (attributes : List Attribute)
    → get_attribute name (set_attributes arguments attributes)
      ≡ given_value name arguments (get_attribute name attributes)
unfolding set_attributes given_value
get_attribute-set_attributes name [] attributes = refl
get_attribute-set_attributes name (n ∷ []) attributes =
    get_attribute-set_attribute name n (codes "undefined") attributes
get_attribute-set_attributes name (n ∷ value ∷ arguments) attributes =
    get_attribute-set_attributes name arguments (set_attribute n value attributes)
    ∙ ap (given_value name arguments) (get_attribute-set_attribute name n value attributes)

length-without_last :
    {A : Type 0} (a : A) (children : List A) → length (without_last a children) ≡ length children
length-without_last a [] = refl
length-without_last a (b ∷ children) = omega (arith, length-without_last b children)

remove_rounds-nil :
    {A : Type 0} (rounds : ℕ) (children : List A)
    → length children ≡ rounds
    → remove_rounds rounds children ≡ []
unfolding remove_rounds
remove_rounds-nil zero [] h = refl
remove_rounds-nil zero (a ∷ children) h = absurd (omega arith)
remove_rounds-nil (suc rounds) [] h = refl
remove_rounds-nil (suc rounds) (a ∷ children) h =
    remove_rounds-nil rounds (without_last a children)
      (omega (arith, length-without_last a children))

-- No child is left.
remove_children-nil : {A : Type 0} (children : List A) → remove_children children ≡ []
unfolding remove_children
remove_children-nil children = remove_rounds-nil (length children) children refl
