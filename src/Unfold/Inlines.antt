-- ===== src/Unfold/Inlines.antt =====
-- staticfiles/unfold/js/app.js: the inline forms of an Unfold page, which replace those of
-- admin/js/inlines.js. The values of the three hidden inputs are numbers.
mod Tests
pub mod Numbers
pub mod Rows
pub mod Valid
pub mod Steps
pub mod Button
use agentsecrets_server.Prelude.{
  ℕ, zero, suc, ◌+◌, ◌-◌, List, [], ◌∷◌, ◌++◌, Option, none, some, Bool, true, false, if◌then◌else◌,
  ltb, leb, ◌==◌, length, drop, ◌||◌,
}
use agentsecrets_server.Text.{codes}
use agentsecrets_server.Text.Search.{starts_with}
use agentsecrets_server.Text.Decimal.{decimal}

-- A piece of HTML, cut at each `prefix-` of the formset: what stands before the first, and what
-- follows each. The placeholder `__prefix__` stands after the prefix only.
pub record Content : Type 0 where
  pub before : List ℕ
  pub tails : List (List ℕ)

abbrev pub placeholder : List ℕ
placeholder = codes "__prefix__"

-- A match of `old` after the prefix becomes `new`.
pub replace_tail : List ℕ → List ℕ → List ℕ → List ℕ
replace_tail old new tail = if starts_with old tail then new ++ drop (length old) tail else tail

pub replace_tails : List ℕ → List ℕ → List (List ℕ) → List (List ℕ)
unfolding replace_tail
replace_tails old new [] = []
replace_tails old new (tail ∷ tails) = replace_tail old new tail ∷ replace_tails old new tails

-- `innerHTML.replaceAll`
abbrev pub replace_all : List ℕ → List ℕ → Content → Content
replace_all old new c = record c { tails = replace_tails old new c.tails }

-- A form group: its `.form-row`, its `.form-nested` if it has one, the class `hidden` of the first
-- `.add-row` in it, if the nested formset has one, the text of its stacked counter if it has one, and
-- the class `last`.
pub record Row : Type 0 where
  pub content : Content
  pub nested : Option Content
  pub nested_add : Option Bool
  pub counter : Option ℕ
  pub last : Bool

-- What a click on the add button hits: the `.add-row`, the link in it, or an element of that link.
pub data Target : Type 0 where
  on_add_row on_link in_link : Target

-- A formset, with the class `hidden` of its own `.form-actions`, of the `.add-row` in them and of the
-- link in that, which stand after the form groups.
pub record Inlines : Type 0 where
  pub rows : List Row
  pub template : Row
  pub total_forms : ℕ
  pub min_num_forms : ℕ
  pub max_num_forms : ℕ
  pub actions_hidden : Bool
  pub add_row_hidden : Bool
  pub link_hidden : Bool
  pub empty : Bool

abbrev pub replace_nested : List ℕ → List ℕ → Option Content → Option Content
replace_nested old new none = none
replace_nested old new (some c) = some (replace_all old new c)

pub replace_row : List ℕ → List ℕ → Row → Row
unfolding replace_tails
replace_row old new r = record r {
  content = replace_all old new r.content;
  nested = replace_nested old new r.nested;
}

abbrev pub is_nil {ℓ} : {A : Type ℓ} → List A → Bool
is_nil [] = true
is_nil (x ∷ xs) = false

-- `applyLastClass`: the last row stands before the template; the template, before the form's actions.
pub apply_last_class : List Row → List Row
apply_last_class [] = []
apply_last_class (r ∷ rows) = record r { last = is_nil rows } ∷ apply_last_class rows

abbrev pub set_counter : ℕ → Option ℕ → Option ℕ
set_counter n none = none
set_counter n (some text) = some n

-- `updateStackedCounter`, from the row with the number `i` on.
pub update_stacked_counter : ℕ → List Row → List Row
update_stacked_counter i [] = []
update_stacked_counter i (r ∷ rows) =
    record r { counter = set_counter (i + 1) r.counter } ∷ update_stacked_counter (i + 1) rows

-- The rows after the one that is deleted; `i` is the number of the first.
pub reindex_rows : ℕ → List Row → List Row
unfolding replace_row
reindex_rows i [] = []
reindex_rows i (r ∷ rows) = replace_row (decimal i) (decimal (i - 1)) r ∷ reindex_rows (i + 1) rows

-- The loop over the rows from number `i` on, where the row number `i + n` is deleted, and its removal.
pub delete_row : ℕ → ℕ → List Row → List Row
unfolding reindex_rows
delete_row i n [] = []
delete_row i zero (r ∷ rows) = reindex_rows (i + 1) rows
delete_row i (suc n) (r ∷ rows) = r ∷ delete_row (i + 1) n rows

abbrev pub is_there : Option Bool → Bool
is_there none = false
is_there (some hidden) = true

pub has_add_row : List Row → Bool
has_add_row [] = false
has_add_row (r ∷ rows) = is_there r.nested_add || has_add_row rows

abbrev show_nested : Row → Row
show_nested r = record r { nested_add = some false }

-- In the first row that has one.
pub show_nested_first : List Row → List Row
show_nested_first [] = []
show_nested_first (r ∷ rows) =
    let rest = show_nested_first rows in
    if is_there r.nested_add then show_nested r ∷ rows else r ∷ rest

-- `formset.querySelector(".add-row").classList.remove("hidden")`: the first in the order of the page is
-- that of a nested formset, in a form or in the template, where there is one.
pub show_add_row : Inlines → Inlines
unfolding has_add_row show_nested_first
show_add_row s =
    if has_add_row s.rows
    then record s { rows = show_nested_first s.rows }
    else if is_there s.template.nested_add
    then record s { template = show_nested s.template }
    else record s { add_row_hidden = false }

-- `applyLastClass` and `checkFormsetEmpty`.
pub mark_forms : Inlines → Inlines
unfolding apply_last_class
mark_forms s = record s {
  rows = apply_last_class s.rows;
  template = record (s.template) { last = true };
  empty = is_nil s.rows;
}

unfoldable pub delete_inline : ℕ → Inlines → Inlines
unfolding delete_row update_stacked_counter show_add_row mark_forms
delete_inline n s =
    let rows = update_stacked_counter 0 (delete_row 0 n s.rows) in
    let left : Inlines = record s { rows = rows; total_forms = length rows } in
    if s.total_forms == s.min_num_forms
    then s
    else mark_forms (if ltb (length rows) s.max_num_forms then show_add_row left else left)

-- The replacements in the row that was added: `/__prefix__/g` in its form row, and, when
-- `formsetGroup:added` is handled, `prefix-__prefix__` in all of it.
pub number_row : ℕ → Row → Row
unfolding replace_row
number_row index r =
    let first = record r { content = replace_all placeholder (decimal index) r.content } in
    replace_row placeholder (decimal index) first

-- Put at the end: the template is the last of the form groups.
pub number_last : ℕ → List Row → List Row
unfolding number_row
number_last index [] = []
number_last index (r ∷ []) = number_row index r ∷ []
number_last index (r ∷ s ∷ rows) = r ∷ number_last index (s ∷ rows)

-- `e.target.parentElement.classList.add("hidden")`
pub hide_parent : Target → Inlines → Inlines
hide_parent on_add_row s = record s { actions_hidden = true }
hide_parent on_link s = record s { add_row_hidden = true }
hide_parent in_link s = record s { link_hidden = true }

unfoldable pub add_inline : Target → Inlines → Inlines
unfolding apply_last_class update_stacked_counter number_last hide_parent
add_inline target s =
    let index = length s.rows in
    let rows = update_stacked_counter 0 (apply_last_class (s.rows ++ s.template ∷ [])) in
    let added : Inlines = record s {
      rows = number_last index rows;
      template = record (s.template) { last = true };
      total_forms = s.total_forms + 1;
      empty = is_nil rows;
    } in
    if leb s.max_num_forms s.total_forms
    then s
    else if s.total_forms + 1 == s.max_num_forms
    then hide_parent target added
    else added
