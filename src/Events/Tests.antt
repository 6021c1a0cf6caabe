-- ===== src/Events/Tests.antt =====
-- Bodies that are accepted and refused, and the theorems at them.
use beacn.Base.{◌≡◌, refl, true, false, [], ◌∷◌, Option, none, some}
use beacn.Base.Int.{ℤ, pos, negsuc}
use beacn.Base.Strip.{strip}
use beacn.Base.Json.{null, num, str, arr, obj, nil, end, field, Fields}
use beacn.Errors.{ok, invalid}
use beacn.Events.{
  ProducerContext, Python, Time, EventKind, Envelope, is_valid_topic_name, first_segment, kind_for,
  clean_str, parse_dt, event_name, topic_name, severity_of, payload_of, schema_version_of, core_of,
  text_at, optional_of, build, with_task_fields, ingest_object, ingest, parse_batch,
}
use beacn.Events.Names.{matches_event, matches_topic}
use beacn.Events.Wire.{live_wire, stored_wire, storage_row, stored_wire-storage_row}
use beacn.Events.Validation.{IsValid, FromServer, ingest-IsValid, ingest-FromServer}

abbrev if_positive : ℤ → Option Time
if_positive (pos n) = some (pos n)
if_positive (negsuc n) = none

-- A stand-in for the standard library: no time before the epoch, payloads of two bytes.
abbrev pub python : Python
python = record {
  dumped_bytes = λ fs. 2;
  str_of = λ v. "?";
  from_iso_format = λ s. none;
  from_timestamp = λ n d. if_positive n;
}

abbrev pub orders : ProducerContext
orders = record {
  producer = "orders-api";
  producer_id = some "prd_1";
  environment = "production";
  api_key_id = some "bk_1";
}

-- A producer that claims to be another one, in another environment.
abbrev pub spoofed : Fields
spoofed = field "event" (str " task.started ") (
    field "producer" (str "billing") (
      field "environment" (str "staging") (
        field "data" (obj (field "task_id" (num (pos 7) 0) (field "name" (str "resize") end)))
          end)))

abbrev pub accepted : Envelope
accepted = record {
  id = "evt_1";
  event = "task.started";
  topic = "task";
  producer = "orders-api";
  environment = "production";
  timestamp = pos 5;
  kind = EventKind.task;
  source = none;
  occurred_at = none;
  correlation_id = none;
  request_id = none;
  user_id = none;
  organization_id = none;
  project_id = none;
  schema_version = "1";
  severity = "info";
  idempotency_key = none;
  payload = field "task_id" (num (pos 7) 0) (field "name" (str "resize") end);
  task_id = some "?";
  task_name = some (str "resize");
  task_status = some (str "started");
  producer_id = some "prd_1";
  api_key_id = some "bk_1";
}

evaluation : Unit {0}
unfolding ingest ingest_object core_of optional_of build with_task_fields event_name topic_name
    severity_of payload_of schema_version_of text_at parse_dt clean_str kind_for first_segment strip
    matches_event matches_topic parse_batch is_valid_topic_name
evaluation = tt

spoofed_run : ingest python (obj spoofed) orders (pos 5) "evt_1" ≡ ok accepted
unfolding evaluation
spoofed_run = refl

refusals :
    (ingest python null orders (pos 5) "evt_1" ≡ invalid "event must be a JSON object")
    × (ingest python (obj end) orders (pos 5) "evt_1" ≡ invalid "event is required")
    × (ingest python (obj (field "event" (str "a..b") end)) orders (pos 5) "evt_1"
        ≡ invalid "event must be a dotted name like 'payment.completed'")
    × (parse_batch (arr nil) ≡ invalid "no events in request")
    × (parse_batch (obj spoofed) ≡ ok (obj spoofed ∷ []))
unfolding evaluation
refusals = (refl, refl, refl, refl, refl)

names :
    (matches_event "a.b.c.d.e.f.g.h" ≡ true)
    × (matches_event "a.b.c.d.e.f.g.h.i" ≡ false)
    × (matches_topic "user:42:x" ≡ true)
    × (matches_topic "user:" ≡ false)
    × (kind_for "chat.sent" ≡ EventKind.message)
    × (kind_for "room.message.sent" ≡ EventKind.message)
    × (is_valid_topic_name (str "orders\n") ≡ true)
unfolding evaluation
names = (refl, refl, refl, refl, refl, refl, refl)

ingest-IsValid_example : IsValid python accepted
ingest-IsValid_example =
    ingest-IsValid python (obj spoofed) orders (pos 5) "evt_1" accepted spoofed_run

ingest-FromServer_example : FromServer orders (pos 5) "evt_1" accepted
ingest-FromServer_example =
    ingest-FromServer python (obj spoofed) orders (pos 5) "evt_1" accepted spoofed_run

abbrev untimely : Fields
untimely = field "event" (str "a") (field "occurred_at" (num (negsuc 0) 0) end)

stored_wire-storage_row_example :
    stored_wire false (storage_row accepted) ≡ record (live_wire true accepted) { task = none }
stored_wire-storage_row_example = stored_wire-storage_row true accepted
