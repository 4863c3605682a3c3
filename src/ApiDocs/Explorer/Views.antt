-- ===== src/ApiDocs/Explorer/Views.antt =====
-- Which view of a response a dialog shows, and which of its buttons is marked.
use agentsecrets_server.Prelude.{
  ℕ, List, [], ◌∷◌, Bool, true, false, ◌≡◌, refl, sym, ap, ◌∙◌, ◌==◌, if◌then◌else◌, arith,
  Bool-cases, inl, inr,
}
use agentsecrets_server.ApiDocs.Header.{UpperCase}
use agentsecrets_server.ApiDocs.Explorer.{
  Display, data_view, raw_view, Dialog, Page, is_raw, is_data, Event, requested, answered, settled,
  toggled, step, run, request, answer, settle, toggle,
}

-- What is seen of a dialog: the two views, and the buttons.
pub record View : Type 0 where
  pub shows_raw : Bool
  pub shows_data : Bool
  pub marks : Display → Bool

abbrev pub view : Dialog → View
view d = record {
  shows_raw = if d.raw_hidden then false else true;
  shows_data = if d.data_hidden then false else true;
  marks = d.marked;
}

abbrev pub showing : Display → View → View
showing display v = record v { shows_raw = is_raw display; shows_data = is_data display }

abbrev pub choosing : Display → View → View
choosing display v =
    showing display (record v { marks = if is_raw display then is_raw else is_data })

-- The view of one dialog, followed by itself: the result of a request shows the display that was
-- chosen last in any of the dialogs, and a choice in this one marks its button.
pub follow : ℕ → Display → View → List Event → View
follow m display v [] = v
follow m display v (requested n method location ∷ events) = follow m display v events
follow m display v (answered n r ok text ∷ events) = follow m display v events
follow m display v (settled n text ∷ events) =
    follow m display (if m == n then showing display v else v) events
follow m display v (toggled n chosen ∷ events) =
    follow m chosen (if m == n then choosing chosen v else v) events

view_change :
    (m n : ℕ) (dialogs : ℕ → Dialog) (f : Dialog → Dialog) (g : View → View)
    → ((d : Dialog) → view (f d) ≡ g (view d))
    → view (if m == n then f (dialogs n) else dialogs m)
      ≡ (if m == n then g (view (dialogs m)) else view (dialogs m))
view_change m n dialogs f g same = elim (Bool-cases (m == n)) [
  | inl e ↦
      let q : m ≡ n = ground arith in
      rw e (same (dialogs n) ∙ ap (λ (k : ℕ). g (view (dialogs k))) (sym q))
  | inr e ↦ rw e refl
]

if_same : {A : Type 0} (c : Bool) (a : A) → (if c then a else a) ≡ a
if_same true a = refl
if_same false a = refl

view-settle :
    (display : Display) (text : List ℕ) (d : Dialog)
    → view (settle display text d) ≡ showing display (view d)
view-settle data_view text d = refl
view-settle raw_view text d = refl

view-toggle : (display : Display) (d : Dialog) → view (toggle display d) ≡ choosing display (view d)
view-toggle data_view d = refl
view-toggle raw_view d = refl

module _ (host : UpperCase) (m : ℕ) where
  -- Whatever the events and their order, a dialog is seen as its own view followed through them: the
  -- result of a request shows the display that was chosen last in any dialog, and a choice in this one
  -- shows and marks what is chosen.
  pub run-view :
      (p : Page) (events : List Event)
      → view ((run host p events).dialogs m) ≡ follow m p.display (view (p.dialogs m)) events
  unfolding run step follow
  run-view p [] = refl
  run-view p (requested n method location ∷ events) =
      run-view (step host p (requested n method location)) events
      ∙ ap (λ (v : View). follow m p.display v events)
          (view_change m n p.dialogs (request method location) (λ v. v) (λ d. refl)
            ∙ if_same (m == n) (view (p.dialogs m)))
  run-view p (answered n r ok text ∷ events) =
      run-view (step host p (answered n r ok text)) events
      ∙ ap (λ (v : View). follow m p.display v events)
          (view_change m n p.dialogs (answer host r ok text) (λ v. v) (λ d. refl)
            ∙ if_same (m == n) (view (p.dialogs m)))
  run-view p (settled n text ∷ events) =
      run-view (step host p (settled n text)) events
      ∙ ap (λ (v : View). follow m p.display v events)
          (view_change m n p.dialogs (settle p.display text) (showing p.display)
            (view-settle p.display text))
  run-view p (toggled n display ∷ events) =
      run-view (step host p (toggled n display)) events
      ∙ ap (λ (v : View). follow m display v events)
          (view_change m n p.dialogs (toggle display) (choosing display) (view-toggle display))

-- After a choice in one dialog and a result in another, the other shows the display that was chosen,
-- and its buttons are as they were.
settled-marks :
    (host : UpperCase) (m n : ℕ) (p : Page) (display : Display) (text : List ℕ)
    → (m == n) ≡ false
    → view ((run host p (toggled n display ∷ settled m text ∷ [])).dialogs m)
      ≡ showing display (view (p.dialogs m))
unfolding follow
settled-marks host m n p display text h =
    let same : (m == m) ≡ true = ground arith in
    run-view host m p (toggled n display ∷ settled m text ∷ []) ∙ rw (h, same) refl
