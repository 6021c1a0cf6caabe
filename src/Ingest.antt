-- ===== src/Ingest.antt =====
-- app/services/ingest.py: dedupe, persist, observe, fan out and propagate.
-- The tables are part of the state. What the calls of `Task.apply_event`, `Notification.from_event`
-- and `rt.publish` do cannot reach back into ingestion (their results are dropped, their exceptions
-- are logged), so the state records the calls, in order.
pub mod Claims
pub mod Fanout
pub mod Tests
use beacn.Base.{
  ℕ, suc, ◌+◌, Bool, true, false, ◌&&◌, not, String, List, [], ◌∷◌, ◌++◌, Option, none, some,
  is_empty, ◌==◌, keep, find, if◌then◌else◌,
}
use mathlib.Core.List.{map}
use beacn.Events.Model.{EventKind, Envelope}
use beacn.Events.Wire.{Wire, live_wire, storage_row}
use beacn.Store.{Table, create}

pub record Accepted : Type 0 where
  pub id : String
  pub event : String
  pub topic : String
  pub deduplicated : Bool

pub record IngestResult : Type 0 where
  pub accepted : List Accepted
  pub deduplicated : ℕ

-- A row of `topics`, as far as ingestion reads it.
pub record TopicRow : Type 0 where
  pub environment : String
  pub name : String
  pub persist : Bool
  pub propagate_to : List String

-- An entry of `_topic_cache`.
pub record Settings : Type 0 where
  pub environment : String
  pub topic : String
  pub persist : Bool
  pub targets : List String

-- A row of `event_idempotency`.
pub record EventIdempotency : Type 0 where
  pub environment : String
  pub producer_id : Option String
  pub idempotency_key : String
  pub event_id : String

-- A call of `rt.publish(environment, topic, wire)`.
pub record Publication : Type 0 where
  pub environment : String
  pub topic : String
  pub wire : Wire

pub record State : Type 0 where
  pub topics : List TopicRow
  pub topic_cache : List Settings
  pub idempotency : List EventIdempotency
  pub events : Table
  pub observed : List Envelope
  pub published : List Publication
  pub ids_drawn : ℕ

abbrev pub is_topic : String → String → TopicRow → Bool
is_topic environment topic row = row.environment == environment && row.name == topic

abbrev pub is_cached : String → String → Settings → Bool
is_cached environment topic entry = entry.environment == environment && entry.topic == topic

-- `t for t in row.propagate_to if t and t != topic`
abbrev pub is_target : String → String → Bool
is_target topic t = not (is_empty t) && not (t == topic)

-- What `_topic_settings` caches for a topic: a topic with no row persists and propagates nowhere.
unfoldable pub settings_of : String → String → Option TopicRow → Settings
settings_of environment topic none = record {
  environment = environment;
  topic = topic;
  persist = true;
  targets = [];
}
settings_of environment topic (some row) = record {
  environment = environment;
  topic = topic;
  persist = row.persist;
  targets = keep (is_target topic) row.propagate_to;
}

unfoldable pub topic_settings : String → String → State → Settings × State
topic_settings environment topic s = elim (find (is_cached environment topic) s.topic_cache) [
  | some entry ↦ (entry, s)
  | none ↦
      let entry = settings_of environment topic (find (is_topic environment topic) s.topics) in
      (entry, record s { topic_cache = s.topic_cache ++ entry ∷ [] })
]

-- `invalidate_topic_cache()`
unfoldable pub invalidate_topic_cache : State → State
invalidate_topic_cache s = record s { topic_cache = [] }

abbrev pub same_option : Option String → Option String → Bool
same_option none none = true
same_option none (some t) = false
same_option (some s) none = false
same_option (some s) (some t) = s == t

abbrev pub is_claim : String → Option String → String → EventIdempotency → Bool
is_claim environment producer_id key row =
    row.environment == environment
    && same_option row.producer_id producer_id
    && row.idempotency_key == key

abbrev pub id_of_accepted : Accepted → String
id_of_accepted a = a.id

abbrev pub claim_of : String → Envelope → EventIdempotency
claim_of key env = record {
  environment = env.environment;
  producer_id = env.producer_id;
  idempotency_key = key;
  event_id = env.id;
}

abbrev pub given_key : Option String → String
given_key none = ""
given_key (some key) = key

-- `_dedupe(env)`: the id of the earlier event, or none and the key claimed. No other process claims
-- the key between the two calls, so the marker row can be created.
unfoldable pub dedupe : Envelope → State → Option String × State
dedupe env s =
    let key = given_key env.idempotency_key in
    if is_empty key
    then (none, s)
    else elim (find (is_claim env.environment env.producer_id key) s.idempotency) [
      | some existing ↦ (some existing.event_id, s)
      | none ↦ (none, record s { idempotency = s.idempotency ++ claim_of key env ∷ [] })
    ]

-- A collision of ids is logged and else ignored.
abbrev pub kept_or : Option Table → Table → Table
kept_or none events = events
kept_or (some events') events = events'

abbrev is_observed : EventKind → Bool
is_observed EventKind.task = true
is_observed EventKind.notification = true
is_observed _ = false

unfoldable pub store : Bool → Envelope → State → State
store persist env s =
    if persist
    then (let (settings, s') = topic_settings env.environment env.topic s in
        if settings.persist
        then record s' { events = kept_or (create (storage_row env) s'.events) s'.events }
        else s')
    else s

unfoldable pub observe : Envelope → State → State
observe env s = if is_observed env.kind then record s { observed = s.observed ++ env ∷ [] } else s

abbrev pub publication_of : Envelope → Publication
publication_of env = record {
  environment = env.environment;
  topic = env.topic;
  wire = live_wire true env;
}

unfoldable pub fan_out_to : Bool → Envelope → State → State
fan_out_to fan_out env s =
    if fan_out then record s { published = s.published ++ publication_of env ∷ [] } else s

-- What is done once for every event that is not a repeat, but for the propagation.
unfoldable pub deliver : Bool → Bool → Envelope → State → State
deliver persist fan_out env s = fan_out_to fan_out env (observe env (store persist env s))

abbrev pub repeat_of : String → Envelope → IngestResult → IngestResult
repeat_of id env rest = record {
  accepted =
      record { id = id; event = env.event; topic = env.topic; deduplicated = true } ∷ rest.accepted;
  deduplicated = rest.deduplicated + 1;
}

abbrev first_of : Envelope → IngestResult → IngestResult
first_of env rest = record {
  accepted =
      record { id = env.id; event = env.event; topic = env.topic; deduplicated = false }
      ∷ rest.accepted;
  deduplicated = rest.deduplicated;
}

-- The loop over the envelopes, with what is done behind the fan-out of each.
unfoldable pub ingest_with :
    (Envelope → State → State) → Bool → Bool → List Envelope → State → IngestResult × State
ingest_with expand persist fan_out [] s = (record { accepted = []; deduplicated = 0 }, s)
ingest_with expand persist fan_out (env ∷ envs) s =
    let (found, s') = dedupe env s in
    elim found [
      | some id ↦
          let (rest, last) = ingest_with expand persist fan_out envs s' in
          (repeat_of id env rest, last)
      | none ↦
          let (rest, last) =
            ingest_with expand persist fan_out envs (expand env (deliver persist fan_out env s')) in
          (first_of env rest, last)
    ]

abbrev pub stop : Envelope → State → State
stop env s = s

-- `event_id n` is the n-th id that `new_id(EVENT)` draws in this process.
module _ (event_id : ℕ → String) where
  -- `replace(env, id=new_id(EVENT), topic=target, idempotency_key=None)` for each target
  unfoldable pub derived : Envelope → ℕ → List String → List Envelope
  derived env n [] = []
  derived env n (target ∷ targets) =
      record env { id = event_id n; topic = target; idempotency_key = none }
      ∷ derived env (n + 1) targets

  abbrev pub count : List String → ℕ
  count [] = 0
  count (t ∷ ts) = suc (count ts)

  -- `ingest(derived, persist=persist, fan_out=fan_out, propagate=False)`, where there are targets
  unfoldable pub propagate_from : Bool → Bool → Envelope → State → State
  propagate_from persist fan_out env s =
      let (settings, s') = topic_settings env.environment env.topic s in
      (ingest_with stop persist fan_out (derived env s'.ids_drawn settings.targets)
        (record s' { ids_drawn = s'.ids_drawn + count settings.targets })).1

  -- `ingest(envelopes, persist=…, fan_out=…, propagate=…)`
  unfoldable pub ingest : Bool → Bool → Bool → List Envelope → State → IngestResult × State
  ingest persist fan_out propagate envelopes s =
      if propagate
      then ingest_with (propagate_from persist fan_out) persist fan_out envelopes s
      else ingest_with stop persist fan_out envelopes s
