-- ===== src/Realtime/Tests.antt =====
-- A connection to a small hub: what it may join, how it ends, and what it is offered.
use beacn.Base.{
  ◌≡◌, refl, Bool, false, ◌&&◌, ◌||◌, not, String, List, [], ◌∷◌, ◌++◌, none, some, ◌==◌,
  if◌then◌else◌,
}
use beacn.Base.Json.{Json, str, end, field, obj, arr, nil}
use beacn.Topics.{Grant}
use beacn.Events.Wire.{Wire, stored_wire}
use beacn.Store.Tests.{four_rows, row_of}
use beacn.Realtime.Protocol.{protocol_error, type_error, parse, parse_typed}
use beacn.Realtime.Hub.{HubOps, HubLaws}
use beacn.Realtime.Session.{Session, Backing, World, state_of, authorize, subscribe, handle}
use beacn.Realtime.Session.Membership.{CoreStep, core, handle-CoreStep}
use beacn.Realtime.Lifecycle.{frame, silence, run}
use beacn.Realtime.Lifecycle.Closing.{Gone, run-Gone}
use beacn.Realtime.Delivery.{Realtime, publish, subscribe-publish}

record Tables : Type 0 where
  members : String → String → Bool
  queues : String → List Wire

abbrev hub_ops : HubOps Tables
hub_ops = record {
  join =
      λ h p t. record { members = λ q u. (p == q && t == u) || h.members q u; queues = h.queues };
  leave = λ h p t. record {
    members = λ q u. not (p == q && t == u) && h.members q u;
    queues = h.queues;
  };
  broadcast = λ h t wire. record {
    members = h.members;
    queues = λ p. if h.members p t then h.queues p ++ wire ∷ [] else h.queues p;
  };
  report = λ h t wire. record { delivered = 1; dropped = 0 };
  is_member = λ h q u. h.members q u;
  offered = λ h p. h.queues p;
}

hub_laws : HubLaws hub_ops
hub_laws = record {
  member-join = λ h p t q u. refl;
  member-leave = λ h p t q u. refl;
  offered-broadcast = λ h t wire p. refl;
  member-broadcast = λ h t wire p u. refl;
}

abbrev repr : Json → String
repr v = "?"

abbrev user_grant : Grant
user_grant = record {
  environment = "production";
  user_id = some "u7";
  organization_id = none;
  project_ids = [];
  scopes = [];
  topic_patterns = [];
  operator = false;
  producer_id = none;
}

abbrev fresh : Session
fresh = record {
  connection_id = "con_1";
  grant = user_grant;
  topics = [];
  events_sent = 0;
  events_dropped = 0;
  closing = false;
  row = record {
    subscriptions = [];
    status = "open";
    close_code = none;
    close_reason = none;
    events_sent = 0;
    events_dropped = 0;
  };
  acknowledged = [];
  sent = [];
  sends_left = 9;
}

abbrev empty_hub : Tables
empty_hub = record { members = λ q u. false; queues = λ p. [] }

abbrev start : World Tables
start = record { hub = empty_hub; registered = []; session = fresh }

abbrev backing : Backing
backing = record { topics = []; events = four_rows; replay_max_events = 2 }

abbrev subscribe_to : String → Json
subscribe_to topic = obj (field "type" (str "subscribe") (field "topic" (str topic) end))

evaluation : Unit {0}
unfolding parse parse_typed
evaluation = tt

frames :
    (parse repr (obj (field "type" (str "replay") end))
      ≡ protocol_error "invalid" "replay requires a topic")
    × ((parse repr (obj (field "type" (arr nil) end)) ≡ type_error)
        × (parse repr (arr nil) ≡ protocol_error "invalid" "frame must be a JSON object"))
unfolding evaluation
frames = (refl, (refl, refl))

handle-CoreStep_example :
    CoreStep hub_ops backing
      (core start)
      (core (state_of (handle hub_ops repr backing (subscribe_to "orders") start)))
handle-CoreStep_example = handle-CoreStep hub_ops repr backing (subscribe_to "orders") start

run-Gone_example :
    Gone hub_ops hub_laws start
      (run hub_ops repr 30000 (frame backing (subscribe_to "orders") ∷ silence ∷ []) start)
run-Gone_example =
    run-Gone hub_ops hub_laws repr 30000 (frame backing (subscribe_to "orders") ∷ silence ∷ [])
      start 8 refl refl (λ t. refl)

abbrev deaf : World Tables
deaf = record start { session = record fresh { sends_left = 0 } }

abbrev subscribed : World Tables
subscribed = state_of (subscribe hub_ops repr backing "orders" none start)

abbrev live : Realtime Tables
live = record {
  hub = subscribed.hub;
  sessions = subscribed.session ∷ [];
  events_delivered = 0;
  events_dropped = 0;
  frames_sent = 0;
}

abbrev staged : Wire
staged = stored_wire false (record (row_of "evt_9" "orders") { environment = "staging" })

subscribe-publish_example : (publish hub_ops "staging" "orders" staged live).hub.queues "con_1" ≡ (
    if authorize backing user_grant "orders" || empty_hub.members "con_1" "orders"
    then live.hub.queues "con_1" ++ staged ∷ []
    else live.hub.queues "con_1")
subscribe-publish_example =
    subscribe-publish hub_ops hub_laws repr backing "orders" "staging" none staged start live refl
