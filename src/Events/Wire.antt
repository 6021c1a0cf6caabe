-- ===== src/Events/Wire.antt =====
-- The shape that a consumer receives, and the row that is stored: `to_wire` and `storage_row` of
-- domain/events.py, the `Event` model of database/models/event.py. Times stand for their ISO texts.
use beacn.Base.{ℕ, Bool, false, String, Option, none, some, ◌≡◌, refl, is_empty, if◌then◌else◌}
use beacn.Base.Json.{Json, Fields}
use beacn.Events.Model.{Time, EventKind, Envelope}

pub record TaskPart : Type 0 where
  pub id : Option String
  pub name : Option Json
  pub status : Option Json

pub record DeliveryPart : Type 0 where
  pub delivered : ℕ
  pub subscribers : ℕ

-- A key that is left out of the dict is none.
pub record Wire : Type 0 where
  pub id : String
  pub event : String
  pub topic : String
  pub kind : EventKind
  pub producer : Option String
  pub environment : String
  pub timestamp : Time
  pub severity : String
  pub schema_version : String
  pub payload : Fields
  pub source : Option String
  pub occurred_at : Option Time
  pub correlation_id : Option String
  pub request_id : Option String
  pub user_id : Option String
  pub organization_id : Option String
  pub project_id : Option String
  pub task : Option TaskPart
  pub delivery : Option DeliveryPart

-- A row of the `events` table.
pub record EventRow : Type 0 where
  pub id : String
  pub environment : String
  pub event : String
  pub topic : String
  pub kind : EventKind
  pub producer_id : Option String
  pub producer_name : Option String
  pub source : Option String
  pub severity : String
  pub schema_version : String
  pub correlation_id : Option String
  pub request_id : Option String
  pub user_id : Option String
  pub organization_id : Option String
  pub project_id : Option String
  pub idempotency_key : Option String
  pub payload : Fields
  pub occurred_at : Option Time
  pub published_at : Time
  pub delivered_count : ℕ
  pub subscriber_count : ℕ

-- `if value: out[key] = value`
abbrev pub if_text : Option String → Option String
if_text none = none
if_text (some s) = if is_empty s then none else some s

abbrev task_part : EventKind → Bool → TaskPart → Option TaskPart
task_part EventKind.task include_meta part = if include_meta then some part else none
task_part _ include_meta part = none

-- `env.to_wire(include_meta=…)`
unfoldable pub live_wire : Bool → Envelope → Wire
live_wire include_meta env = record {
  id = env.id;
  event = env.event;
  topic = env.topic;
  kind = env.kind;
  producer = some env.producer;
  environment = env.environment;
  timestamp = env.timestamp;
  severity = env.severity;
  schema_version = env.schema_version;
  payload = env.payload;
  source = if_text env.source;
  occurred_at = env.occurred_at;
  correlation_id = if_text env.correlation_id;
  request_id = if_text env.request_id;
  user_id = if_text env.user_id;
  organization_id = if_text env.organization_id;
  project_id = if_text env.project_id;
  task =
      task_part env.kind include_meta
        (record { id = env.task_id; name = env.task_name; status = env.task_status });
  delivery = none;
}

-- `env.storage_row()`, as `Event.create(**row)` stores it.
unfoldable pub storage_row : Envelope → EventRow
storage_row env = record {
  id = env.id;
  environment = env.environment;
  event = env.event;
  topic = env.topic;
  kind = env.kind;
  producer_id = env.producer_id;
  producer_name = some env.producer;
  source = env.source;
  severity = env.severity;
  schema_version = env.schema_version;
  correlation_id = env.correlation_id;
  request_id = env.request_id;
  user_id = env.user_id;
  organization_id = env.organization_id;
  project_id = env.project_id;
  idempotency_key = env.idempotency_key;
  payload = env.payload;
  occurred_at = env.occurred_at;
  published_at = env.timestamp;
  delivered_count = 0;
  subscriber_count = 0;
}

-- `row.to_wire(include_meta=…)` of the `Event` model.
unfoldable pub stored_wire : Bool → EventRow → Wire
stored_wire include_meta row = record {
  id = row.id;
  event = row.event;
  topic = row.topic;
  kind = row.kind;
  producer = row.producer_name;
  environment = row.environment;
  timestamp = row.published_at;
  severity = row.severity;
  schema_version = row.schema_version;
  payload = row.payload;
  source = if_text row.source;
  occurred_at = row.occurred_at;
  correlation_id = if_text row.correlation_id;
  request_id = if_text row.request_id;
  user_id = if_text row.user_id;
  organization_id = if_text row.organization_id;
  project_id = if_text row.project_id;
  task = none;
  delivery =
      if include_meta
      then some (record { delivered = row.delivered_count; subscribers = row.subscriber_count })
      else none;
}

-- A replayed event is the event that was sent live, with its envelope's every field, for every
-- envelope: the row that is stored gives back the frame that `to_wire` made, except that the `task`
-- part of a live task event is not stored (and the delivery counts are none, as replay asks for none).
pub stored_wire-storage_row :
    (include_meta : Bool) (env : Envelope)
    → stored_wire false (storage_row env) ≡ record (live_wire include_meta env) { task = none }
unfolding stored_wire storage_row live_wire
stored_wire-storage_row include_meta env = refl
