-- ===== src/Api/Publish.antt =====
-- `publish_events` of routes/api/v1.py: a batch from its request to its answer.
use beacn.Base.{
  ℕ, ◌+◌, Bool, true, ◌&&◌, String, List, [], ◌∷◌, Option, none, some, or_default, ltb, eqb, length,
  if◌then◌else◌,
}
use beacn.Base.Json.{Json}
use beacn.Base.Dict.{Dict, lookup, insert}
use beacn.Errors.{rate_limited, BeacnError, beacn_error, uncaught, Result, ok, err, ◌>>=◌, raise_as}
use beacn.RateLimit.{Limiter, admitted, limited, check}
use beacn.Events.{ingest, parse_batch}
use beacn.Events.Model.{Time, ProducerContext, Envelope, Python}
use beacn.Ingest as Ingest
use beacn.Ingest.{IngestResult, Accepted}
use beacn.Auth.{ApiKey, Producer}
use beacn.Api.{HttpRequest, Response, reply, read_json, enforce_size}

-- `event_count` and `last_event_at` of a producer.
pub record ProducerStats : Type 0 where
  pub event_count : ℕ
  pub last_event_at : Option Time

pub record State : Type 0 where
  pub limiter : Limiter
  pub store : Ingest.State
  pub stats : Dict ProducerStats

-- `_producer_context(ctx)`
unfoldable pub producer_context : ApiKey → Producer → ProducerContext
producer_context key producer = record {
  producer = producer.slug;
  producer_id = some producer.id;
  environment = producer.environment;
  api_key_id = some key.id;
}

-- An item of `errors`: the index of the event, and its error.
pub record Rejected : Type 0 where
  pub index : ℕ
  pub error : BeacnError

pub record Collected : Type 0 where
  pub envelopes : List Envelope
  pub errors : List Rejected
  pub ids_drawn : ℕ

abbrev pub add_envelope : Envelope → Collected → Collected
add_envelope env c = record c { envelopes = env ∷ c.envelopes }

abbrev pub add_error : ℕ → BeacnError → Collected → Collected
add_error i e c = record c { errors = record { index = i; error = e } ∷ c.errors }

-- The payload of an answer: what was ingested and what was rejected.
pub data Published : Type 0 where
  published : IngestResult → List Rejected → Published
  no_valid_events : List Rejected → Published

-- `touch_producer_stats(producer, count, when)`
unfoldable pub touch_producer_stats : String → ℕ → Time → Dict ProducerStats → Dict ProducerStats
touch_producer_stats id count when stats =
    let old = or_default (lookup id stats) (record { event_count = 0; last_event_at = none }) in
    insert id (record { event_count = old.event_count + count; last_event_at = some when }) stats

-- `result.all_deduplicated`
unfoldable pub all_deduplicated : IngestResult → Bool
all_deduplicated r = ltb 0 (length r.accepted) && eqb r.deduplicated (length r.accepted)

-- `event_id n` is the n-th id of the process; `clock` is the limiter's, in ticks.
module _ (py : Python) (event_id : ℕ → String) (ticks max_request_bytes : ℕ) where
  -- The loop over the raw events.
  unfoldable pub collect : ProducerContext → Time → ℕ → ℕ → List Json → Result Collected
  collect ctx now i n [] = ok (record { envelopes = []; errors = []; ids_drawn = n })
  collect ctx now i n (raw ∷ raws) = elim (ingest py raw ctx now (event_id n)) [
    | ok env ↦ collect ctx now (i + 1) (n + 1) raws >>= λ c. ok (add_envelope env c)
    | err (beacn_error e) ↦ collect ctx now (i + 1) n raws >>= λ c. ok (add_error i e c)
    | err uncaught ↦ err uncaught
  ]

  abbrev pub status_of : IngestResult → ℕ
  status_of r = if all_deduplicated r then 200 else 201

  unfoldable pub store_batch :
      Producer → Time → Collected → State → Result (Response Published) × State
  store_batch producer now c s =
      let (result, store) =
        Ingest.ingest event_id true true true c.envelopes
          (record s.store { ids_drawn = c.ids_drawn }) in
      (
        ok (reply (status_of result) (published result c.errors)),
        record s {
          store = store;
          stats = touch_producer_stats producer.id (length result.accepted) now s.stats;
        },
      )

  -- What is done with the batch once its events are told apart.
  unfoldable pub answer_batch :
      Producer → Time → Collected → State → Result (Response Published) × State
  answer_batch producer now c s = elim c.envelopes [
    | [] ↦ elim c.errors [
      | [] ↦ store_batch producer now c s
      | e ∷ es ↦ (ok (reply 422 (no_valid_events c.errors)), s)
    ]
    | env ∷ envs ↦ store_batch producer now c s
  ]

  abbrev pub rate_error : ℕ → BeacnError
  rate_error after = record (raise_as rate_limited "publish rate limit exceeded") {
    retry_after = some after;
  }

  unfoldable pub admitted_batch :
      ApiKey → Producer → Time → List Json → State → Result (Response Published) × State
  admitted_batch key producer now raws s =
      elim (collect (producer_context key producer) now 0 s.store.ids_drawn raws) [
        | ok c ↦ answer_batch producer now c s
        | err e ↦ (err e, s)
      ]

  -- Behind the parsing of the batch: the limiter is asked for its number of events.
  unfoldable pub limited_batch :
      ApiKey → Producer → Time → ℕ → List Json → State → Result (Response Published) × State
  limited_batch key producer now clock raws s =
      let (limiter, outcome) = check ticks s.limiter key.prefix (length raws) clock in
      elim outcome [
        | admitted ↦ admitted_batch key producer now raws (record s { limiter = limiter })
        | limited after ↦ (err (beacn_error (rate_error after)), record s { limiter = limiter })
      ]

  abbrev pub batch_of : HttpRequest → Result (List Json)
  batch_of request = do
    sized ← enforce_size request max_request_bytes
    body ← read_json request
    parse_batch body

  -- `publish_events(ctx)`
  unfoldable pub publish_events :
      HttpRequest → Time → ℕ → ApiKey → Producer → State → Result (Response Published) × State
  publish_events request now clock key producer s = elim (batch_of request) [
    | ok raws ↦ limited_batch key producer now clock raws s
    | err e ↦ (err e, s)
  ]
