-- ===== src/Control/Playground.antt =====
-- `operator_realtime_token`, `playground_token` and `playground_publish` of routes/api/control.py: an
-- operator that watches, and publishes as a producer. The fields of a body are typed.
pub mod Watching
pub mod Refusing
pub mod Publishing
pub mod Tests
use beacn.Base.{
  ℕ, ◌+◌, Bool, true, false, ◌&&◌, String, List, [], ◌∷◌, Option, none, some, or_default, is_empty,
  find, ◌==◌, if◌then◌else◌,
}
use beacn.Base.Strip.{strip}
use beacn.Base.Json.{Json, obj}
use beacn.Errors.{Failure, Result, ok, err, ◌>>=◌, invalid, raise, not_found}
use beacn.Events as Events
use beacn.Events.Model.{Time, ProducerContext, Envelope, Python}
use beacn.Ingest as Ingest
use beacn.Ingest.{IngestResult}
use beacn.Auth.{Producer}
use beacn.Auth.Tokens.{Jwt, Request, mint_realtime_token}

-- `data.get("environment") or "development"`
abbrev pub home : String → String
home environment = if is_empty environment then "development" else environment

-- What `operator_realtime_token` mints.
unfoldable pub operator_request : String → Option ℕ → Request
operator_request environment ttl = record {
  environment = home environment;
  user_id = none;
  organization_id = none;
  project_ids = [];
  scopes = "system:read" ∷ [];
  topic_patterns = [];
  operator = true;
  producer_id = none;
  ttl_seconds = ttl;
}

-- `PLAYGROUND_TOKEN_TTL`
abbrev pub playground_token_ttl : ℕ
playground_token_ttl = 600

-- What `playground_token` mints for a producer.
unfoldable pub playground_request : String → Producer → Request
playground_request environment producer = record {
  environment = home environment;
  user_id = none;
  organization_id = none;
  project_ids = [];
  scopes = "events:read" ∷ [];
  topic_patterns = "*" ∷ [];
  operator = false;
  producer_id = some producer.id;
  ttl_seconds = some playground_token_ttl;
}

abbrev pub is_producer : String → String → Producer → Bool
is_producer environment id p = p.id == id && p.environment == environment

-- The producer that a body names.
unfoldable pub playground_producer : String → String → List Producer → Result Producer
playground_producer environment producer_id producers =
    if is_empty (strip producer_id)
    then invalid "producer_id is required"
    else elim (find (is_producer (home environment) (strip producer_id)) producers) [
      | none ↦ raise not_found "no producer with that id in this environment"
      | some producer ↦ ok producer
    ]

module _ {Token : Type 0} (jwt : Jwt Token) (default_ttl : ℕ) (secret_key : String) (now : ℕ) where
  -- `operator_realtime_token(ctx)`: the token, and how long it lives.
  unfoldable pub operator_realtime_token : String → Option ℕ → Token × ℕ
  operator_realtime_token environment ttl =
      mint_realtime_token jwt default_ttl secret_key (operator_request environment ttl) now

  -- `playground_token(ctx)`
  unfoldable pub playground_token : String → String → List Producer → Result (Token × ℕ)
  playground_token environment producer_id producers = do
    producer ← playground_producer environment producer_id producers
    ok (
        mint_realtime_token jwt default_ttl secret_key (playground_request environment producer)
          now)

-- `ProducerContext(producer=producer.name, producer_id=producer.id, environment=environment)`
unfoldable pub playground_context : String → Producer → ProducerContext
playground_context environment producer = record {
  producer = producer.name;
  producer_id = some producer.id;
  environment = home environment;
  api_key_id = none;
}

abbrev event_object : Json → Result Json
event_object (obj body) = ok (obj body)
event_object v = invalid "event must be an object — {event, topic, data, ...}"

-- `event_id n` is the n-th id of the process.
module _ (py : Python) (event_id : ℕ → String) where
  -- The envelope that `playground_publish` makes.
  unfoldable pub playground_envelope :
      String → String → Json → List Producer → Time → ℕ → Result Envelope
  playground_envelope environment producer_id body producers now drawn = do
    producer ← playground_producer environment producer_id producers
    event ← event_object body
    Events.ingest py event (playground_context environment producer) now (event_id drawn)

  -- `playground_publish(ctx)`
  unfoldable pub playground_publish :
      String
      → String
      → Json
      → List Producer
      → Time
      → Ingest.State
      → Result IngestResult × Ingest.State
  playground_publish environment producer_id body producers now s =
      elim (playground_envelope environment producer_id body producers now s.ids_drawn) [
        | err e ↦ (err e, s)
        | ok env ↦
            let (result, s') =
              Ingest.ingest event_id true true true (env ∷ [])
                (record s { ids_drawn = s.ids_drawn + 1 }) in
            (ok result, s')
      ]
