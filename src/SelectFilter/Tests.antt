-- ===== src/SelectFilter/Tests.antt =====
-- A field with three available nodes, and the theorems on it.
use agentsecrets_server.Prelude.{◌%◌, ◌+◌, [], ◌++◌, some, true, false, map, keep, ◌≡◌, refl, arith}
use agentsecrets_server.Text.{codes, ascii_case}
use agentsecrets_server.SelectBox.Move.Exact.{stays, nodes_of}
use agentsecrets_server.SelectBox.Tests.{
  left_nodes, left_box, right_box, page, stale_box, stale_page, stale_box-IsFaithful,
}
use agentsecrets_server.SelectFilter.{Ids, Field, selected_index, filter_key_down, submit}
use agentsecrets_server.SelectFilter.Arrows.{IsAt, filter_key_down-round}
use agentsecrets_server.SelectFilter.Moves.{Refreshed, click_choose, click_choose_exact}
use agentsecrets_server.SelectFilter.Submit.{sent, submit_lem}

abbrev ids : Ids
ids = record { from = "from"; to = "to" }

abbrev field : Field
field = record {
  page = page;
  input = codes "add";
  selected_input = [];
  add_disabled = false;
  remove_disabled = true;
  add_all_disabled = false;
  remove_all_disabled = true;
  warning = 0;
  with_filtered = false;
}

second_IsAt : IsAt "from" field 3 1
unfolding selected_index
second_IsAt = (left_box, refl, refl, refl)

filter_key_down-round_example :
    (g : Field) × (filter_key_down ascii_case ids 40 true field ≡ some g)
    × IsAt "from" g 3 ((1 + 1) % 3)
    × (h : Field) × (filter_key_down ascii_case ids 38 true g ≡ some h)
    × IsAt "from" h 3 1
filter_key_down-round_example =
    filter_key_down-round ascii_case ids true field 3 1 (omega arith) second_IsAt

abbrev stale_field : Field
stale_field = record field { page = stale_page }

click_choose_exact_example :
    (g : Field) × (click_choose ascii_case ids false stale_field ≡ some g)
    × Refreshed ascii_case ids
        (keep (stays false stale_box.options) left_nodes)
        ([] ++ nodes_of false left_nodes stale_box.options)
        (codes "add")
        []
        g
click_choose_exact_example =
    click_choose_exact ascii_case ids false left_nodes [] stale_box right_box stale_field refl refl
      refl refl refl refl stale_box-IsFaithful

submit_lem_example :
    (g : Field) × (submit ascii_case (record { from = "to"; to = "from" }) field ≡ some g)
    × (g.page.boxes "from" ≡ some (record left_box { options = map sent left_nodes }))
submit_lem_example =
    submit_lem ascii_case (record { from = "to"; to = "from" }) field left_nodes left_box refl refl
