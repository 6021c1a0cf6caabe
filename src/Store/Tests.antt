-- ===== src/Store/Tests.antt =====
-- A small table, for the tests of what reads it.
use beacn.Base.{◌≡◌, refl, String, [], ◌∷◌, none, some}
use beacn.Base.Int.{pos}
use beacn.Base.Json.{end}
use beacn.Events.Model.{EventKind}
use beacn.Events.Wire.{EventRow}
use beacn.Store.{Table, create}
use beacn.Store.Order.{IsAscending}

abbrev pub row_of : String → String → EventRow
row_of id topic = record {
  id = id;
  environment = "production";
  event = "order.paid";
  topic = topic;
  kind = EventKind.event;
  producer_id = none;
  producer_name = some "orders-api";
  source = none;
  severity = "info";
  schema_version = "1";
  correlation_id = none;
  request_id = none;
  user_id = none;
  organization_id = none;
  project_id = none;
  idempotency_key = none;
  payload = end;
  occurred_at = none;
  published_at = pos 5;
  delivered_count = 0;
  subscriber_count = 0;
}

abbrev pub four_rows : Table
four_rows =
    row_of "evt_1" "orders"
    ∷ row_of "evt_2" "orders"
    ∷ row_of "evt_3" "tasks"
    ∷ row_of "evt_4" "orders"
    ∷ []

pub four_rows-IsAscending : IsAscending four_rows
four_rows-IsAscending = ((refl, (refl, (refl, tt))), ((refl, (refl, tt)), ((refl, tt), (tt, tt))))

create_twice : create (row_of "evt_2" "orders") four_rows ≡ none
unfolding create
create_twice = refl

create_between :
    create (row_of "evt_2" "orders") (row_of "evt_1" "orders" ∷ row_of "evt_3" "orders" ∷ [])
    ≡ some (row_of "evt_1" "orders" ∷ row_of "evt_2" "orders" ∷ row_of "evt_3" "orders" ∷ [])
unfolding create
create_between = refl
