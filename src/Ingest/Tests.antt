-- ===== src/Ingest/Tests.antt =====
-- An event that is sent twice, and one that its topic propagates.
use beacn.Base.{ℕ, ◌≡◌, refl, true, false, String, List, [], ◌∷◌, Option, none, some}
use mathlib.Core.List.{map}
use beacn.Base.Int.{pos}
use beacn.Base.Json.{end}
use beacn.Events.Model.{EventKind, Envelope}
use beacn.Store.Tests.{four_rows}
use beacn.Ingest.{
  State, TopicRow, settings_of, topic_settings, invalidate_topic_cache, dedupe, store, observe,
  fan_out_to, deliver, ingest_with, derived, propagate_from, ingest, repeat_of, id_of_accepted,
}
use beacn.Ingest.Claims.{ingest_once}
use beacn.Ingest.Fanout.{topic_of, targets_now, ingest_one_hop}

abbrev pub paid : String → Option String → Envelope
paid id key = record {
  id = id;
  event = "order.paid";
  topic = "orders";
  producer = "orders-api";
  environment = "production";
  timestamp = pos 9;
  kind = EventKind.event;
  source = none;
  occurred_at = none;
  correlation_id = none;
  request_id = none;
  user_id = none;
  organization_id = none;
  project_id = none;
  schema_version = "1";
  severity = "info";
  idempotency_key = key;
  payload = end;
  task_id = none;
  task_name = none;
  task_status = none;
  producer_id = some "prd_1";
  api_key_id = none;
}

-- orders goes to billing and ledger, and names itself; billing goes back to orders.
abbrev wired : List TopicRow
wired =
    record {
      environment = "production";
      name = "orders";
      persist = true;
      propagate_to = "billing" ∷ "orders" ∷ "" ∷ "ledger" ∷ [];
    }
    ∷ record {
      environment = "production";
      name = "billing";
      persist = false;
      propagate_to = "orders" ∷ [];
    }
    ∷ []

abbrev pub started : State
started = record {
  topics = wired;
  topic_cache = [];
  idempotency = [];
  events = four_rows;
  observed = [];
  published = [];
  ids_drawn = 0;
}

abbrev pub drawn : ℕ → String
drawn ℕ.zero = "evt_7"
drawn (ℕ.suc n) = "evt_8"

run : Unit {0}
unfolding settings_of topic_settings dedupe store observe fan_out_to deliver ingest_with derived
    propagate_from ingest topic_of targets_now invalidate_topic_cache
run = tt

topics_run :
    map topic_of (ingest drawn true true true (paid "evt_5" none ∷ []) started).1.published
    ≡ "orders" ∷ "billing" ∷ "ledger" ∷ []
unfolding run
topics_run = refl

fresh : (dedupe (paid "evt_5" none) started).0 ≡ none
unfolding run
fresh = refl

ingest_one_hop_example :
    map topic_of (ingest drawn true true true (paid "evt_5" none ∷ []) started).1.published
    ≡ "orders" ∷ targets_now "production" "orders" started
unfolding topic_of
ingest_one_hop_example = ingest_one_hop drawn true (paid "evt_5" none) started fresh

abbrev first : State
first = (ingest drawn true true true (paid "evt_5" (some "k") ∷ []) started).1

abbrev between : State
between = (ingest drawn true true true (paid "evt_6" none ∷ []) first).1

ingest_once_example :
    (id : String) × ((map id_of_accepted
          (ingest drawn true true true (paid "evt_5" (some "k") ∷ []) started).0.accepted
        ≡ id ∷ [])
      × (ingest drawn true true true (paid "evt_9" (some "k") ∷ []) between ≡ (
        repeat_of id (paid "evt_9" (some "k")) (record { accepted = []; deduplicated = 0 }),
        between,
      )))
ingest_once_example =
    ingest_once drawn true true true (paid "evt_5" (some "k")) (paid "evt_9" (some "k"))
      (paid "evt_6" none ∷ []) started refl refl refl refl
