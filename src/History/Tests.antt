-- ===== src/History/Tests.antt =====
-- Queries of a small table.
use beacn.Base.{◌≡◌, refl, arith, Bool, false, String, [], ◌∷◌, none, some, length, keep, ◌<◌}
use beacn.Base.Int.{pos, negsuc}
use beacn.Paging.{behind}
use beacn.Store.{backwards}
use beacn.Store.Tests.{row_of, four_rows}
use beacn.History.{
  HistoryQuery, clamped_limit, matches_query, descending_of, in_order, before_in, row_id, get_one,
}

-- A stand-in for the database's `startswith`.
abbrev pub never : String → String → Bool
never p column = false

abbrev newest : HistoryQuery
newest = record {
  environment = "production";
  topic = some "orders";
  event = none;
  event_prefix = none;
  producer_id = none;
  kind = none;
  severity = none;
  correlation_id = none;
  user_id = none;
  since = none;
  until = none;
  cursor = none;
  order = "desc";
  limit = pos 2;
}

limits :
    (clamped_limit (pos 0) ≡ 50) × (clamped_limit (negsuc 6) ≡ 1) × (clamped_limit (pos 900) ≡ 200)
unfolding clamped_limit
limits = (refl, refl, refl)

found : get_one "production" "evt_3" four_rows ≡ some (row_of "evt_3" "tasks")
unfolding get_one
found = refl

pub few :
    length (
      keep
        (behind row_id (before_in never (descending_of never newest)) none)
        (keep (matches_query never newest) (in_order never (descending_of never newest) four_rows)))
    < 4
unfolding backwards matches_query
few = omega arith

rows_in_order :
    keep
      (behind row_id (before_in never (descending_of never newest)) none)
      (keep (matches_query never newest) (in_order never (descending_of never newest) four_rows))
    ≡ row_of "evt_4" "orders" ∷ row_of "evt_2" "orders" ∷ row_of "evt_1" "orders" ∷ []
unfolding backwards matches_query
rows_in_order = refl
