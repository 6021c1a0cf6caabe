-- ===== src/Sdk/Subscribe.antt =====
-- `subscribe` of sdk/python/beacn.py over server-sent events: connections one after the other.
use beacn.Base.{
  ℕ, suc, ◌*◌, ◌∷◌, ◌++◌, Bool, true, false, String, List, [], Option, none, some, ◌==◌,
  if◌then◌else◌,
}
use beacn.Base.Json.{Json, str, obj, get, or_else}
use beacn.Sdk.{RetryPolicy, retry_policy, delay_for}
use beacn.Sdk.Body.{Event, event_of}
use beacn.Sdk.Sse.{iter_sse}

-- A connection: the lines that arrive, and whether the stream is then closed by the service, or breaks
-- (or could not be opened, with no lines).
pub record Connection : Type 0 where
  pub lines : List String
  pub is_closed : Bool

-- How a subscription ends, if it does: as the service closed the stream, with ConnectionClosed, with
-- OverflowError; or it waits for the next connection.
pub data Ended : Type 0 where
  returned closed overflow_error waiting : Ended

pub record Consumed : Type 0 where
  pub events : List Event
  pub last_id : Json
  pub ended : Ended

-- `payload.get("type") == "event"`, of a dict.
abbrev pub is_event : Json → Bool
is_event (str s) = s == "event"
is_event v = false

abbrev pub event_payload : Json → List Event
event_payload (obj payload) = if is_event (get payload "type") then event_of payload ∷ [] else []
event_payload v = []

-- The events among the payloads of a stream.
unfoldable pub events_of : List Json → List Event
events_of [] = []
events_of (v ∷ vs) = event_payload v ++ events_of vs

-- `last_id = event.id or last_id`, for each event.
unfoldable pub last_id_of : List Event → Json → Json
last_id_of [] last_id = last_id
last_id_of (e ∷ es) last_id = last_id_of es (or_else e.id last_id)

-- The retries so far in a row: an event sets them back.
abbrev pub attempts_after : List Event → ℕ → ℕ
attempts_after [] attempt = attempt
attempts_after (e ∷ es) attempt = 0

abbrev pub with_events : List Event → Consumed → Consumed
with_events es rest = record rest { events = es ++ rest.events }

-- Times are in ticks of `half` a second; `RetryPolicy(max_attempts=10 ** 9, base_delay=0.5, …)`.
abbrev pub reconnect_policy : ℕ → RetryPolicy
reconnect_policy half = retry_policy 1000000000 half (60 * half) (2000000000 * half) 2 true

module _ (loads : String → Option Json) (uniform : ℕ → ℕ → ℕ) (float_limit half : ℕ)
    (reconnect : Bool) where
  abbrev pub stops : Json → Ended → Consumed
  stops last_id ended = record { events = []; last_id = last_id; ended = ended }

  -- `_sse_once(topics, token, last_id)`
  abbrev pub sse_once : Connection → List Event
  sse_once c = events_of (iter_sse loads [] c.lines)

  -- `subscribe(*topics)`, from a number of failed attempts on.
  unfoldable pub subscribe : ℕ → Json → List Connection → Consumed
  subscribe attempt last_id [] = stops last_id waiting
  subscribe attempt last_id (c ∷ cs) =
      let es = sse_once c in
      let last = last_id_of es last_id in
      let failed = suc (attempts_after es attempt) in
      let rest = subscribe failed last cs in
      with_events es (
        if c.is_closed
        then stops last returned
        else if reconnect
        then (elim (delay_for uniform float_limit (reconnect_policy half) failed none) [
          | none ↦ stops last overflow_error
          | some delay ↦ rest
        ])
        else stops last closed)
