-- ===== src/Unfold/Charts.antt =====
-- app.js: the charts of a page, up to what the library draws. `none` says that the script throws.
pub mod Settled
use agentsecrets_server.Prelude.{
  ℕ, zero, suc, List, [], ◌∷◌, ◌++◌, Bool, true, false, ◌||◌, Option, none, some, map,
  if◌then◌else◌, ◌==◌, ◌>>=◌, drop,
}
use agentsecrets_server.Text.{codes}
use agentsecrets_server.Text.Search.{equal_text, starts_with}

-- What the script reads of a dataset. A color is missing, a text, an array of texts (`none` is an
-- element that is no text), or something else.
pub data Color : Type 0 where
  no_color : Color
  one : List ℕ → Color
  many : List (Option (List ℕ)) → Color
  other : Color

pub record Dataset : Type 0 where
  pub border_color : Color
  pub background_color : Color
  pub max_ticks_x_limit : Option ℕ
  pub display_y_axis : Bool
  pub suffix_y_axis : List ℕ

abbrev ends_line : ℕ → Bool
ends_line c = c == 10 || c == 13 || c == 0x2028 || c == 0x2029

-- The shortest text of one line up to a parenthesis.
pub until_parenthesis : List ℕ → Option (List ℕ)
until_parenthesis [] = none
until_parenthesis (c ∷ s) =
    let rest = until_parenthesis s in
    if c == b')' then some [] else if ends_line c then none else rest >>= λ t. some (c ∷ t)

abbrev or_later {ℓ} : {A : Type ℓ} → Option A → Option A → Option A
or_later none later = later
or_later (some a) later = some a

-- `text.match(/var\((.*?)\)/)[1]`
pub css_variable : List ℕ → Option (List ℕ)
unfolding until_parenthesis
css_variable [] = none
css_variable (c ∷ s) =
    let later = css_variable s in
    if starts_with (codes "var(") (c ∷ s)
    then or_later (until_parenthesis (drop 4 (c ∷ s))) later
    else later

-- `property_value` is the trimmed value that the document's computed style has for a variable.
module _ (property_value : List ℕ → List ℕ) where
  pub process_text : List ℕ → Option (List ℕ)
  unfolding css_variable
  process_text s =
      if starts_with (codes "var(") s
      then (css_variable s >>= λ variable. some (property_value variable))
      else some s

  pub process_items : List (Option (List ℕ)) → Option (List (Option (List ℕ)))
  unfolding process_text
  process_items [] = some []
  process_items (none ∷ items) = none
  process_items (some s ∷ items) = do
    color ← process_text s
    rest ← process_items items
    some (some color ∷ rest)

  -- `processColor`
  pub process_color : Color → Option Color
  unfolding process_items process_text
  process_color no_color = some no_color
  process_color (one s) = process_text s >>= λ color. some (one color)
  process_color (many items) = process_items items >>= λ colors. some (many colors)
  process_color other = none

  pub process_dataset : Dataset → Option Dataset
  unfolding process_color
  process_dataset d = do
    border ← process_color d.border_color
    background ← process_color d.background_color
    some (record d { border_color = border; background_color = background })

  -- The loop over the datasets of a chart.
  pub process_datasets : List Dataset → Option (List Dataset)
  unfolding process_dataset
  process_datasets [] = some []
  process_datasets (d ∷ datasets) = do
    e ← process_dataset d
    rest ← process_datasets datasets
    some (e ∷ rest)

-- The callbacks of the options.
abbrev is_round : List ℕ → Bool
is_round type =
    equal_text type (codes "pie")
    || equal_text type (codes "doughnut")
    || equal_text type (codes "radar")

-- `scales.x.display` and `scales.y.display`
pub display_axis : List ℕ → Bool
display_axis type = if is_round type then false else true

abbrev next_limit : Option ℕ → Option ℕ → Option ℕ
next_limit none later = later
next_limit (some zero) later = later
next_limit (some (suc n)) later = some (suc n)

-- `scales.x.ticks.maxTicksLimit`: a limit of 0 does not count.
pub max_ticks_limit : List Dataset → Option ℕ
max_ticks_limit [] = none
max_ticks_limit (d ∷ datasets) = next_limit d.max_ticks_x_limit (max_ticks_limit datasets)

-- `scales.y.ticks.display`
pub display_ticks : List Dataset → Bool
display_ticks [] = false
display_ticks (d ∷ datasets) = d.display_y_axis || display_ticks datasets

pub suffix_of : List Dataset → List ℕ
suffix_of [] = []
suffix_of (d ∷ datasets) =
    let later = suffix_of datasets in
    if equal_text d.suffix_y_axis [] then later else d.suffix_y_axis

-- `scales.y.ticks.callback`, of the text of a value.
pub tick_label : List Dataset → List ℕ → List ℕ
unfolding suffix_of
tick_label datasets value = labelled (suffix_of datasets)
  where
    labelled : List ℕ → List ℕ
    labelled [] = value
    labelled (c ∷ suffix) = value ++ b' ' ∷ c ∷ suffix

-- `scales.y.grid.lineWidth`, by whether the value of the tick is 0.
pub line_width : Bool → ℕ
line_width is_zero = if is_zero then 1 else 0

-- The colors of the grids of a chart, of the scales that it has.
pub record Chart : Type 0 where
  pub type : List ℕ
  pub datasets : List Dataset
  pub x_color : Option (List ℕ)
  pub y_color : Option (List ℕ)
  pub r_color : Option (List ℕ)

abbrev recolored : List ℕ → Option (List ℕ) → Option (List ℕ)
recolored color none = none
recolored color (some old) = some color

-- `changeDarkModeSettings`, whether the page has the class `dark`; the two colors are those that the
-- computed style has.
pub change_dark_mode_settings : Bool → List ℕ → List ℕ → List Chart → List Chart
change_dark_mode_settings has_dark_class dark light charts =
    let color = if has_dark_class then dark else light in
    map
      (λ (c : Chart). record c {
        x_color = recolored color c.x_color;
        y_color = recolored color c.y_color;
        r_color = recolored color c.r_color;
      })
      charts

-- An element of the class `chart`; `value` is the text of its data, which `parse` reads.
pub record Canvas : Type 0 where
  pub value : List ℕ
  pub type : List ℕ
  pub options : List ℕ

-- `DEFAULT_CHART_OPTIONS` has the scales x and y, those of a radar chart the scale r; `given` says which
-- scales the options have that an element gives itself.
abbrev scale : Bool → Option (List ℕ)
scale true = some []
scale false = none

pub record Scales : Type 0 where
  pub x : Bool
  pub y : Bool
  pub r : Bool

abbrev scales_of : (List ℕ → Scales) → Canvas → Scales
scales_of given c =
    if equal_text c.options []
    then (if equal_text c.type (codes "radar")
        then record { x = false; y = false; r = true }
        else record { x = true; y = true; r = false })
    else given c.options

abbrev or_bar : List ℕ → List ℕ
or_bar [] = codes "bar"
or_bar (c ∷ type) = c ∷ type

module _ (property_value : List ℕ → List ℕ) (parse : List ℕ → Option (List Dataset))
    (given : List ℕ → Scales) where
  abbrev chart_of : Canvas → List Dataset → Chart
  chart_of c datasets =
      let scales = scales_of given c in
      record {
        type = or_bar c.type;
        datasets = datasets;
        x_color = scale scales.x;
        y_color = scale scales.y;
        r_color = scale scales.r;
      }

  pub chart_with : List ℕ → Canvas → Option (List Chart)
  unfolding process_datasets
  chart_with [] c = some []
  chart_with (d ∷ value) c = do
    datasets ← parse (d ∷ value)
    processed ← process_datasets property_value datasets
    some (chart_of c processed ∷ [])

  -- The loop of `renderCharts`; an element without data is passed over.
  pub render_charts : List Canvas → Option (List Chart)
  unfolding chart_with
  render_charts [] = some []
  render_charts (c ∷ canvases) = do
    chart ← chart_with c.value c
    rest ← render_charts canvases
    some (chart ++ rest)
