-- ===== src/Integrations/Tests.antt =====
-- The second retry of a task.
use beacn.Base.{◌≡◌, refl, map, ℕ, ◌+◌, String, [], ◌∷◌, none, some, true}
use beacn.Base.Int.{pos}
use beacn.Base.Strip.{strip}
use beacn.Base.Json.{num, str, obj, Fields, end, field}
use beacn.Errors.{ok}
use beacn.Events as Events
use beacn.Events.{
  first_segment, kind_for, clean_str, parse_dt, event_name, topic_name, severity_of, payload_of,
  schema_version_of, core_of, text_at, optional_of, build, with_task_fields, ingest_object,
  is_valid_topic_name,
}
use beacn.Events.Names.{matches_event, matches_topic}
use beacn.Events.Model.{Envelope}
use beacn.Events.Tests.{python, orders, accepted}
use beacn.Ingest.{ingest, id_of_accepted, repeat_of}
use beacn.Ingest.Tests.{started, drawn}
use beacn.Sdk.Body.{Defaults, build_body, publish_body, copy_fields}
use beacn.Integrations.{Signalled, emit, signal_event, event_data, update, take_chars}
use beacn.Integrations.Repeats.{signal_again-ingest}

abbrev retried : ℕ → Signalled
retried n = record {
  task_id = "t1";
  name = none;
  retries = some n;
  error = some "busy";
  result = none;
  runtime_ms = none;
  correlation_id = none;
}

abbrev bare : Defaults
bare = record { default_topic = none; default_source = none }

abbrev retry_data : ℕ → Fields
retry_data n =
    field "task_id" (str "t1")
      (field "attempt" (num (pos (n + 1)) 0) (field "error" (str "busy") end))

abbrev retry_body : ℕ → Fields
retry_body n = field "event" (str "task.retrying") (
    field "topic" (str "tasks") (
      field "data" (obj (retry_data n))
        (field "severity" (str "info") (field "idempotency_key" (str "t1:task.retrying") end))))

emitted : (n : ℕ) → emit bare "tasks" none "task_retry" (retried n) ≡ some (retry_body n)
unfolding emit signal_event event_data update take_chars publish_body build_body copy_fields
emitted n = refl

abbrev retry_event : String → ℕ → Envelope
retry_event id n = record accepted {
  id = id;
  event = "task.retrying";
  topic = "tasks";
  timestamp = pos n;
  idempotency_key = some "t1:task.retrying";
  payload = retry_data n;
  task_id = some "t1";
  task_name = none;
  task_status = some (str "retrying");
}

reading : Unit {0}
unfolding Events.ingest ingest_object core_of event_name clean_str strip topic_name severity_of
    payload_of schema_version_of optional_of build with_task_fields text_at parse_dt kind_for
    first_segment matches_event matches_topic is_valid_topic_name
reading = tt

read_first :
    Events.ingest python (obj (retry_body 0)) orders (pos 0) "evt_1" ≡ ok (retry_event "evt_1" 0)
unfolding reading
read_first = refl

read_second :
    Events.ingest python (obj (retry_body 1)) orders (pos 1) "evt_2" ≡ ok (retry_event "evt_2" 1)
unfolding reading
read_second = refl

signal_again-ingest_example :
    (id : String) × ((map id_of_accepted
          (ingest drawn true true true (retry_event "evt_1" 0 ∷ []) started).0.accepted
        ≡ id ∷ [])
      × (ingest drawn true true true
            (retry_event "evt_2" 1 ∷ [])
            (ingest drawn true true true []
              (ingest drawn true true true (retry_event "evt_1" 0 ∷ []) started).1).1
          ≡ (
            repeat_of id (retry_event "evt_2" 1) (record { accepted = []; deduplicated = 0 }),
            (ingest drawn true true true []
                (ingest drawn true true true (retry_event "evt_1" 0 ∷ []) started).1).1,
          )))
signal_again-ingest_example =
    signal_again-ingest python drawn orders bare "tasks" none "task_retry" (retried 0) (retried 1)
      (retry_body 0) (retry_body 1) (pos 0) (pos 1) "evt_1" "evt_2" (retry_event "evt_1" 0)
      (retry_event "evt_2" 1) [] started refl (emitted 0) (emitted 1) read_first read_second
