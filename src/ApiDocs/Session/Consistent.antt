-- ===== src/ApiDocs/Session/Consistent.antt =====
-- The controls show what the page uses.
use agentsecrets_server.Prelude.{ℕ, List, [], ◌∷◌, ◌≡◌, refl, map, not, All}
use agentsecrets_server.Text.Search.{equal_text}
use agentsecrets_server.ApiDocs.Session.{
  Method, no_method, token_method, basic_method, session_method, Auth, unset, token, basic, session,
  same_method, method_text, Item, Block, Controls, Event, no_auth, token_form, basic_form,
  session_form, language_item, step, run,
}

abbrev pub method_of : Auth → Method
method_of unset = no_method
method_of (token scheme t) = token_method
method_of (basic username password) = basic_method
method_of session = session_method

-- The authentication that is used is the one that is shown, and the only one marked; the language
-- shown is the one that is marked, and the examples in it are those shown.
pub record IsConsistent (c : Controls) : Type 0 where
  pub text : c.selected ≡ method_text (method_of c.auth)
  pub active : (m : Method) → c.is_active m ≡ same_method (method_of c.auth) m
  pub items : All (λ (i : Item). i.is_active ≡ equal_text i.language c.selected_language) c.items
  pub blocks :
      All (λ (b : Block). b.is_hidden ≡ not (equal_text b.language c.selected_language)) c.blocks

-- The credentials that the last of the forms gave.
pub last_auth : Auth → List Event → Auth
last_auth auth [] = auth
last_auth auth (no_auth ∷ events) = last_auth unset events
last_auth auth (token_form scheme t ∷ events) = last_auth (token scheme t) events
last_auth auth (basic_form username password ∷ events) = last_auth (basic username password) events
last_auth auth (session_form ∷ events) = last_auth session events
last_auth auth (language_item language ∷ events) = last_auth auth events

marked_items :
    (language : List ℕ) (items : List Item)
    → All
        (λ (i : Item). i.is_active ≡ equal_text i.language language)
        (map (λ (i : Item). record i { is_active = equal_text i.language language }) items)
marked_items language [] = tt
marked_items language (i ∷ items) = (refl, marked_items language items)

marked_blocks :
    (language : List ℕ) (blocks : List Block)
    → All
        (λ (b : Block). b.is_hidden ≡ not (equal_text b.language language))
        (map (λ (b : Block). record b { is_hidden = not (equal_text b.language language) }) blocks)
marked_blocks language [] = tt
marked_blocks language (b ∷ blocks) = (refl, marked_blocks language blocks)

step-IsConsistent : (c : Controls) (e : Event) → IsConsistent c → IsConsistent (step c e)
unfolding step
step-IsConsistent c no_auth h = record {
  text = refl;
  active = λ m. refl;
  items = h.items;
  blocks = h.blocks;
}
step-IsConsistent c (token_form scheme t) h = record {
  text = refl;
  active = λ m. refl;
  items = h.items;
  blocks = h.blocks;
}
step-IsConsistent c (basic_form username password) h = record {
  text = refl;
  active = λ m. refl;
  items = h.items;
  blocks = h.blocks;
}
step-IsConsistent c session_form h = record {
  text = refl;
  active = λ m. refl;
  items = h.items;
  blocks = h.blocks;
}
step-IsConsistent c (language_item language) h = record {
  text = h.text;
  active = h.active;
  items = marked_items language c.items;
  blocks = marked_blocks language c.blocks;
}

-- From controls that agree with each other, whatever the clicks and forms, they agree afterwards, and
-- the credentials used are those of the last form.
pub run-IsConsistent :
    (c : Controls) (events : List Event)
    → IsConsistent c
    → IsConsistent (run c events) × ((run c events).auth ≡ last_auth c.auth events)
unfolding run step last_auth
run-IsConsistent c [] h = (h, refl)
run-IsConsistent c (no_auth ∷ events) h =
    run-IsConsistent (step c no_auth) events (step-IsConsistent c no_auth h)
run-IsConsistent c (token_form scheme t ∷ events) h =
    run-IsConsistent (step c (token_form scheme t)) events
      (step-IsConsistent c (token_form scheme t) h)
run-IsConsistent c (basic_form username password ∷ events) h =
    run-IsConsistent (step c (basic_form username password)) events
      (step-IsConsistent c (basic_form username password) h)
run-IsConsistent c (session_form ∷ events) h =
    run-IsConsistent (step c session_form) events (step-IsConsistent c session_form h)
run-IsConsistent c (language_item language ∷ events) h =
    run-IsConsistent (step c (language_item language)) events
      (step-IsConsistent c (language_item language) h)
