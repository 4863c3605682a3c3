-- ===== src/RelatedPopups/Dismiss/Tests.antt =====
-- Two selects for a team, on a page that opened a window for the first, and the theorems on them.
use Prim.Native.String.{String}
use text.Mathlib.Text.{◌==◌ as str_eq}
use agentsecrets_server.Prelude.{
  ℕ, List, [], ◌∷◌, ◌++◌, true, false, ◌≡◌, refl, ap, ◌∙◌, none, some, if◌then◌else◌, All, Bool,
}
use agentsecrets_server.Prelude.Int.{pos}
use agentsecrets_server.Text.{codes}
use agentsecrets_server.Text.Search.{equal_text, starts_with}
use agentsecrets_server.Text.Replace.{split_on}
use agentsecrets_server.SelectBox.{Box, redisplay}
use agentsecrets_server.RelatedPopups.{add_popup_index, remove_popup_index}
use agentsecrets_server.RelatedPopups.Names.{remove_popup_index-add}
use agentsecrets_server.RelatedPopups.Windows.{Window, forget, remove_start, remove_start-prefix}
use agentsecrets_server.RelatedPopups.Options.{State, Document, model_name, rename_first}
use agentsecrets_server.RelatedPopups.Options.Related.{
  is_one_of, changed_box, HasBox, IsDistinct, with_object, taken,
}
use agentsecrets_server.RelatedPopups.Dismiss.{select_ids, dismiss_add, dismiss_delete}
use agentsecrets_server.RelatedPopups.Dismiss.Added.{
  with_added, dismiss_add-exact, dismiss_add-uncached,
}
use agentsecrets_server.RelatedPopups.Dismiss.Deleted.{
  options_at, without, dismiss_delete-redisplay,
}

abbrev team : List ℕ
team = codes "id_team"

abbrev lead : List ℕ
lead = codes "id_lead"

abbrev path : List ℕ
path = codes "/team/add/"

abbrev spell : List ℕ → String
spell id =
    if equal_text id team
    then "id_team"
    else if equal_text id lead
    then "id_lead"
    else if equal_text id (codes "7")
    then "7"
    else ""

abbrev document : Bool → Document
document loaded = record {
  is_other = λ id. false;
  is_multiple = λ id. false;
  related = λ model. if equal_text model (codes "team") then team ∷ lead ∷ [] else [];
  has_select_box = loaded;
  spell = spell;
}

abbrev box : Box
box = record {
  options = record { value = "3"; text = codes "Three"; title = []; selected = true } ∷ [];
  scroll_top = 0;
}

abbrev state : State
state = record {
  page = record {
    popup_index = some (pos 0);
    fields = λ id. none;
    related_windows = [];
    closed = [];
  };
  selects = record {
    cache = λ id. none;
    boxes = λ id.
        if str_eq id "id_team" then some box else if str_eq id "id_lead" then some box else none;
  };
  rendered = λ id. [];
  changed = [];
}

abbrev window : Window
window = record { number = 1; name = add_popup_index (some (pos 0)) team; href = path }

abbrev delete_window : Window
delete_window = record {
  number = 2;
  name = codes "delete_" ++ add_popup_index (some (pos 0)) team;
  href = [];
}

model_name_test : model_name path none ≡ codes "team"
unfolding model_name split_on starts_with
model_name_test = refl

boxes_there : All (HasBox spell state.selects) ((document false).related (model_name path none))
boxes_there = rw model_name_test ((box, refl), ((box, refl), tt))

distinct : IsDistinct spell ((document false).related (model_name path none))
unfolding is_one_of
distinct = rw model_name_test (refl, (refl, tt))

dismiss_add-exact_example :
    (after : State) × (dismiss_add (document false) window path (codes "7") (codes "Seven") state
      ≡ some after)
    × (after.page ≡ record state.page {
      related_windows = forget 1 state.page.related_windows;
      closed = 1 ∷ state.page.closed;
    })
    × (after.changed ≡ state.changed ++ team ∷ [])
    × (after.selects.cache ≡ state.selects.cache)
    × ((j : String)
        → after.selects.boxes j
          ≡ changed_box
              (with_object (document false) none (codes "Seven") (codes "7"))
              (is_one_of spell
                (taken
                  (document false)
                  (some team)
                  []
                  ((document false).related (model_name path none)))
                j)
              (changed_box
                (with_added (document false) team (codes "Seven") (codes "7"))
                (str_eq (spell team) j)
                (state.selects.boxes j)))
dismiss_add-exact_example =
    dismiss_add-exact (document false) window path (codes "7") (codes "Seven") team state box refl
      (remove_popup_index-add (some (pos 0)) team) refl boxes_there distinct

-- SelectBox.js is loaded, and the other select comes first.
abbrev loaded_document : Document
loaded_document = record (document true) {
  related = λ model. if equal_text model (codes "team") then lead ∷ team ∷ [] else [];
}

related_selects : loaded_document.related (model_name path none) ≡ lead ∷ team ∷ []
related_selects = rw model_name_test refl

no_null : rename_first (spell (codes "null")) (codes "Seven") "7" box.options ≡ none
unfolding rename_first
no_null = refl

dismiss_add-uncached_example :
    dismiss_add loaded_document window path (codes "7") (codes "Seven") state ≡ none
dismiss_add-uncached_example =
    dismiss_add-uncached loaded_document window path (codes "7") (codes "Seven") team lead
      (team ∷ []) state box box refl (remove_popup_index-add (some (pos 0)) team) refl refl
      related_selects refl refl refl no_null refl

delete_name :
    remove_popup_index state.page.popup_index
      (remove_start (codes "delete_" ∷ []) delete_window.name)
    ≡ team
delete_name =
    ap (remove_popup_index (some (pos 0)))
      (remove_start-prefix (codes "delete_") (add_popup_index (some (pos 0)) team))
    ∙ remove_popup_index-add (some (pos 0)) team

dismiss_delete-redisplay_example :
    ((dismiss_delete (document true) delete_window (codes "7") state).selects.boxes "id_team"
      ≡ changed_box
          (without "7")
          (is_one_of spell (select_ids team) "id_team")
          (state.selects.boxes "id_team"))
    × ((dismiss_delete (document true) delete_window (codes "7") state).selects.cache
        ≡ state.selects.cache)
    × ((dismiss_delete (document true) delete_window (codes "7") state).page ≡ record state.page {
      related_windows = forget 2 state.page.related_windows;
      closed = 2 ∷ state.page.closed;
    })
    × (options_at "id_team" (
          redisplay "id_team"
            (dismiss_delete (document true) delete_window (codes "7") state).selects)
        ≡ options_at "id_team" (redisplay "id_team" state.selects))
dismiss_delete-redisplay_example =
    dismiss_delete-redisplay (document true) delete_window team (codes "7") state "id_team"
      delete_name
