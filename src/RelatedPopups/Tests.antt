-- ===== src/RelatedPopups/Tests.antt =====
-- A window that is opened from a first window, and the theorems on it.
use agentsecrets_server.Prelude.{[], ◌∷◌, none, if◌then◌else◌, some, true, ◌≡◌, refl}
use agentsecrets_server.Prelude.Int.{pos, inc}
use agentsecrets_server.Text.{codes}
use agentsecrets_server.Text.Decimal.{decimal}
use agentsecrets_server.RelatedPopups.{add_popup_index, suffix, show_number}
use agentsecrets_server.Text.Search.{equal_text}
use agentsecrets_server.RelatedPopups.Windows.{
  Field, Page, set_field, show_related_object_lookup_popup, dismiss_related_lookup_popup,
  dismiss_related_lookup_popup-show_related_object_lookup_popup,
}

name_of_window : add_popup_index (some (pos 0)) (codes "id_team__2") ≡ codes "id_team__2__1"
unfolding add_popup_index suffix show_number inc decimal
name_of_window = refl

abbrev users : Field
users = record { value = codes "3"; many = true }

abbrev opener : Page
opener = record {
  popup_index = some (pos 0);
  fields = λ id. if equal_text id (codes "id_users") then some users else none;
  related_windows = record { number = 1; name = codes "id_team__1"; href = [] } ∷ [];
  closed = [];
}

dismiss_related_lookup_popup-show_related_object_lookup_popup_example :
    dismiss_related_lookup_popup
      (show_related_object_lookup_popup
        (λ url. url)
        2
        (codes "lookup_id_users")
        (codes "/users/")
        opener).0
      (codes "7")
      (show_related_object_lookup_popup
        (λ url. url)
        2
        (codes "lookup_id_users")
        (codes "/users/")
        opener).1
    ≡ some (record opener {
      fields = set_field opener.fields (codes "id_users") (record users { value = codes "3,7" });
      closed = 2 ∷ [];
    })
dismiss_related_lookup_popup-show_related_object_lookup_popup_example =
    dismiss_related_lookup_popup-show_related_object_lookup_popup (λ url. url) 2 (codes "id_users")
      (codes "/users/") (codes "7") opener users refl (refl, tt)
