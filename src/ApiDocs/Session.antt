-- ===== src/ApiDocs/Session.antt =====
-- api.js: the controls of the page for authentication and for the language of the examples.
pub mod Consistent
use agentsecrets_server.Prelude.{
  ℕ, List, [], ◌∷◌, Bool, true, false, Option, none, some, map, not, if◌then◌else◌,
}
use agentsecrets_server.Text.{codes}
use agentsecrets_server.Text.Search.{equal_text}

pub data Method : Type 0 where
  no_method token_method basic_method session_method : Method

-- `window.auth`
pub data Auth : Type 0 where
  unset : Auth
  token : List ℕ → List ℕ → Auth
  basic : List ℕ → List ℕ → Auth
  session : Auth

-- The option `auth` of a client.
pub data ClientAuth : Type 0 where
  token_authentication : List ℕ → List ℕ → ClientAuth
  basic_authentication : List ℕ → List ℕ → ClientAuth
  session_authentication : List ℕ → List ℕ → ClientAuth

abbrev pub client_auth : Auth → Option ClientAuth
client_auth unset = none
client_auth (token scheme t) = some (token_authentication scheme t)
client_auth (basic username password) = some (basic_authentication username password)
client_auth session = some (session_authentication (codes "csrftoken") (codes "X-CSRFToken"))

abbrev pub same_method : Method → Method → Bool
same_method no_method no_method = true
same_method token_method token_method = true
same_method basic_method basic_method = true
same_method session_method session_method = true
same_method _ _ = false

-- The entry of a method has the attribute `data-auth` with the text that the control shows.
abbrev pub method_text : Method → List ℕ
method_text no_method = codes "none"
method_text token_method = codes "token"
method_text basic_method = codes "basic"
method_text session_method = codes "session"

-- An entry of a list and its class `active`.
pub record Item : Type 0 where
  pub language : List ℕ
  pub is_active : Bool

-- A block of code and its class `hide`.
pub record Block : Type 0 where
  pub language : List ℕ
  pub is_hidden : Bool

-- `is_open` is what the dialogs of the methods are.
pub record Controls : Type 0 where
  pub auth : Auth
  pub selected : List ℕ
  pub is_active : Method → Bool
  pub is_open : Method → Bool
  pub items : List Item
  pub selected_language : List ℕ
  pub blocks : List Block

-- The active entry is that of the method and no other.
abbrev choose_method : Method → Auth → Controls → Controls
choose_method m auth c = record c {
  auth = auth;
  selected = method_text m;
  is_active = λ other. same_method m other;
}

abbrev close : Method → Controls → Controls
close m c = record c { is_open = λ other. if same_method m other then false else c.is_open other }

abbrev mark_item : List ℕ → Item → Item
mark_item language i = record i { is_active = equal_text i.language language }

abbrev mark_block : List ℕ → Block → Block
mark_block language b = record b { is_hidden = not (equal_text b.language language) }

-- The listener of the language control.
abbrev choose_language : List ℕ → Controls → Controls
choose_language language c = record c {
  items = map (mark_item language) c.items;
  selected_language = language;
  blocks = map (mark_block language) c.blocks;
}

pub data Event : Type 0 where
  no_auth : Event
  token_form : List ℕ → List ℕ → Event
  basic_form : List ℕ → List ℕ → Event
  session_form : Event
  language_item : List ℕ → Event

pub step : Controls → Event → Controls
step c no_auth = choose_method no_method unset c
step c (token_form scheme t) = close token_method (choose_method token_method (token scheme t) c)
step c (basic_form username password) =
    close basic_method (choose_method basic_method (basic username password) c)
step c session_form = close session_method (choose_method session_method session c)
step c (language_item language) = choose_language language c

pub run : Controls → List Event → Controls
unfolding step
run c [] = c
run c (e ∷ events) = run (step c e) events
