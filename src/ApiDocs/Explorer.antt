-- ===== src/ApiDocs/Explorer.antt =====
-- api.js: how the dialogs of the explorer show the responses.
pub mod Views
use agentsecrets_server.Prelude.{ℕ, List, [], ◌∷◌, ◌++◌, Bool, true, false, ◌==◌, if◌then◌else◌}
use agentsecrets_server.ApiDocs.Header.{UpperCase}
use agentsecrets_server.ApiDocs.Response.{Response, panel_text}

pub data Display : Type 0 where
  data_view raw_view : Display

-- The classes and the texts of a dialog's elements; `marked` and `plain` are the classes `btn-info`
-- and `btn-default` of its two buttons.
pub record Dialog : Type 0 where
  pub toggle_hidden : Bool
  pub marked : Display → Bool
  pub plain : Display → Bool
  pub is_success : Bool
  pub is_danger : Bool
  pub request_method : List ℕ
  pub request_url : List ℕ
  pub status_code : ℕ
  pub meta_hidden : Bool
  pub raw_text : List ℕ
  pub awaiting_hidden : Bool
  pub raw_hidden : Bool
  pub data_hidden : Bool
  pub data_text : List ℕ

-- The page: `responseDisplay`, and the dialogs by number.
pub record Page : Type 0 where
  pub display : Display
  pub dialogs : ℕ → Dialog

abbrev pub with_dialog : Page → ℕ → Dialog → Page
with_dialog p m d = record p { dialogs = λ n. if n == m then d else p.dialogs n }

abbrev pub is_raw : Display → Bool
is_raw data_view = false
is_raw raw_view = true

abbrev pub is_data : Display → Bool
is_data data_view = true
is_data raw_view = false

-- The parts of the URL of a request, as an anchor gives them.
pub record Location : Type 0 where
  pub pathname : List ℕ
  pub hash : List ℕ
  pub search : List ℕ

abbrev request_path : Location → List ℕ
request_path l = l.pathname ++ l.hash ++ l.search

-- `requestCallback`
abbrev pub request : List ℕ → Location → Dialog → Dialog
request method location d = record d {
  request_method = method;
  request_url = request_path location;
}

-- `responseCallback`; `ok` is `response.ok`.
abbrev pub answer : UpperCase → Response → Bool → List ℕ → Dialog → Dialog
answer host r ok text d = record d {
  toggle_hidden = false;
  is_success = ok;
  is_danger = if ok then false else true;
  status_code = r.status;
  meta_hidden = false;
  raw_text = panel_text host r text;
}

-- What follows the client's answer or failure, with the text of its data.
abbrev pub settle : Display → List ℕ → Dialog → Dialog
settle display text d = record d {
  awaiting_hidden = true;
  raw_hidden = is_data display;
  data_hidden = is_raw display;
  data_text = text;
}

-- A click on one of the two buttons.
abbrev pub toggle : Display → Dialog → Dialog
toggle display d = record d {
  marked = λ other. if is_raw display then is_raw other else is_data other;
  plain = λ other.
      if (if is_raw display then is_raw other else is_data other) then false else d.plain other;
  raw_hidden = is_data display;
  data_hidden = is_raw display;
}

pub data Event : Type 0 where
  requested : ℕ → List ℕ → Location → Event
  answered : ℕ → Response → Bool → List ℕ → Event
  settled : ℕ → List ℕ → Event
  toggled : ℕ → Display → Event

module _ (host : UpperCase) where
  pub step : Page → Event → Page
  step p (requested m method location) = with_dialog p m (request method location (p.dialogs m))
  step p (answered m r ok text) = with_dialog p m (answer host r ok text (p.dialogs m))
  step p (settled m text) = with_dialog p m (settle p.display text (p.dialogs m))
  step p (toggled m display) =
      with_dialog (record p { display = display }) m (toggle display (p.dialogs m))

  pub run : Page → List Event → Page
  unfolding step
  run p [] = p
  run p (e ∷ events) = run (step p e) events
