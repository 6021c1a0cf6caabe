-- ===== src/Sdk.antt =====
-- sdk/python/beacn.py: a request of the client, its errors and its retries. Times and delays are whole
-- numbers of one small unit, and a multiplier is a whole number, as the default 2.0 is.
pub mod Errors
pub mod Retry
pub mod Keeps
pub mod Network
pub mod Once
pub mod Mirror
pub mod Config
pub mod Body
pub mod Batch
pub mod Sse
pub mod Subscribe
pub mod Pages
pub mod Outage
pub mod Joining
pub mod Tests
use beacn.Base.{
  ℕ, zero, suc, ◌+◌, ◌-◌, ◌*◌, ◌^◌, min, max, Bool, true, false, ◌&&◌, ◌||◌, String, List, [], ◌∷◌,
  Option, none, some, elem, ltb, leb, eqb, if◌then◌else◌,
}
use beacn.Base.Int.{ℤ, pos_part}
use beacn.Base.Json.{Json, Items, nil, cons, obj, arr, get, get?, is_true}
use beacn.Sdk.Errors.{Values, ApiError, error_for, failed_request, given_or_own}

-- `RetryPolicy`
pub record RetryPolicy : Type 0 where
  pub max_attempts : ℕ
  pub base_delay : ℕ
  pub max_delay : ℕ
  pub max_elapsed : ℕ
  pub multiplier : ℕ
  pub jitter : Bool

-- `RetryPolicy(...)`
unfoldable pub retry_policy : ℕ → ℕ → ℕ → ℕ → ℕ → Bool → RetryPolicy
retry_policy max_attempts base_delay max_delay max_elapsed multiplier jitter = record {
  max_attempts = max 1 max_attempts;
  base_delay = base_delay;
  max_delay = max_delay;
  max_elapsed = max_elapsed;
  multiplier = multiplier;
  jitter = jitter;
}

-- `random.uniform(0.0, b)`, at the draw of the attempt `n`, is `uniform n b`; a power of floats that
-- reaches `float_limit` raises OverflowError, and the delay is none.
module _ (uniform : ℕ → ℕ → ℕ) (float_limit : ℕ) where
  -- `policy.delay_for(attempt, retry_after)`
  unfoldable pub delay_for : RetryPolicy → ℕ → Option ℤ → Option ℕ
  delay_for policy attempt (some retry_after) = some (min policy.max_delay (pos_part retry_after))
  delay_for policy attempt none =
      let raw = min policy.max_delay (policy.base_delay * policy.multiplier ^ (attempt - 1)) in
      if leb float_limit (policy.multiplier ^ (attempt - 1))
      then none
      else some (if policy.jitter then uniform attempt raw else raw)

-- `policy.should_retry(attempt, status, None, idempotent)`
unfoldable pub should_retry : RetryPolicy → ℕ → ℕ → Bool → Bool
should_retry policy attempt status idempotent =
    ltb attempt policy.max_attempts && idempotent && (eqb status 429 || leb 500 status)

-- `policy.should_retry(attempt, None, exc, idempotent)`
unfoldable pub should_retry_failure : RetryPolicy → ℕ → Bool → Bool
should_retry_failure policy attempt idempotent = ltb attempt policy.max_attempts && idempotent

-- `bool(e.get(key))`, where `e` is a dict.
abbrev pub has_true : String → Json → Bool
has_true key (obj e) = is_true (get e key)
has_true key v = false

abbrev pub all_have : String → Items → Bool
all_have key nil = true
all_have key (cons e es) = has_true key e && all_have key es

-- `"events" in body and all(...)`, for the list that `publish_batch` makes; else it is left false.
abbrev pub events_have : String → Option Json → Bool
events_have key (some (arr es)) = all_have key es
events_have key _ = false

abbrev pub batch_has : String → Json → Bool
batch_has key (obj body) = events_have key (get? body "events")
batch_has key v = false

abbrev pub idempotent_methods : List String
idempotent_methods = "GET" ∷ "HEAD" ∷ "PUT" ∷ "DELETE" ∷ []

abbrev pub has_key : Option Json → Bool
has_key none = false
has_key (some body) = has_true "idempotency_key" body

abbrev pub batch_has_keys : Option Json → Bool
batch_has_keys none = false
batch_has_keys (some body) = batch_has "idempotency_key" body

abbrev pub given_or : Bool → Option Bool → Bool
given_or b none = b
given_or b (some given) = given

-- What `Beacn._request` takes for `idempotent`.
unfoldable pub is_idempotent : String → Option Json → Option Bool → Bool
is_idempotent method body given =
    given_or (elem method idempotent_methods || has_key body || batch_has_keys body) given

-- What `AsyncBeacn._request` takes for `idempotent`.
unfoldable pub is_idempotent_async : String → Option Json → Option Bool → Bool
is_idempotent_async method body given =
    given_or (elem method idempotent_methods || has_key body) given

-- What one attempt brings: the decoded body of a success; the status, decoded body and
-- `X-Request-Id` of an HTTP error; or an error of the connection.
pub data Reply : Type 0 where
  success : Json → Reply
  http_error : (status : ℕ) (body : Json) (request_id : Option String) → Reply
  connection_error : (message : String) → Reply

-- How a request ends.
pub data Outcome : Type 0 where
  returned : Json → Outcome
  raised : ApiError → Outcome
  overflow_error : Outcome
  out_of_fuel : Outcome

pub data Next : Type 0 where
  finish : Outcome → Next
  sleep_for : ℕ → Next

-- `W` is the world outside of the client: `send n w` is what the attempt `n` brings, and the world
-- after it; `time_of` is the clock and `sleep` is `time.sleep`. `request_id n` is drawn for the attempt
-- `n`.
pub record Outside (W : Type 0) : Type 0 where
  pub send : ℕ → W → Reply × W
  pub time_of : W → ℕ
  pub sleep : ℕ → W → W
  pub request_id : ℕ → String
  pub values : Values
  pub uniform : ℕ → ℕ → ℕ
  pub float_limit : ℕ

-- A request that ended: how, after how many attempts, and the sleeps with the times they began at.
pub record Run (W : Type 0) : Type 0 where
  pub outcome : Outcome
  pub attempts : ℕ
  pub sleeps : List (ℕ × ℕ)
  pub world : W

abbrev pub slept : {W : Type 0} → ℕ × ℕ → Run W → Run W
slept s run = record run { sleeps = s ∷ run.sleeps }

module _ {W : Type 0} (o : Outside W) (policy : RetryPolicy) (idempotent : Bool) (started : ℕ) where
  -- `if time.time() - start + delay <= retry.max_elapsed`, and else the error is raised.
  abbrev pub sleep_or_raise : ℕ → ApiError → Option ℕ → Next
  sleep_or_raise now e none = finish overflow_error
  sleep_or_raise now e (some delay) =
      if leb (now + delay) (started + policy.max_elapsed)
      then sleep_for delay
      else finish (raised e)

  -- What is done with a reply to the attempt `n` that is read at the time `now`.
  unfoldable pub next_of : ℕ → ℕ → Reply → Next
  next_of n now (success v) = finish (returned v)
  next_of n now (http_error status body request_id) =
      let e = error_for o.values status body (given_or_own request_id (o.request_id n)) in
      if should_retry policy n status idempotent
      then sleep_or_raise now e (delay_for o.uniform o.float_limit policy n e.retry_after)
      else finish (raised e)
  next_of n now (connection_error message) =
      let e = failed_request message (o.request_id n) in
      if should_retry_failure policy n idempotent
      then sleep_or_raise now e (delay_for o.uniform o.float_limit policy n none)
      else finish (raised e)

  -- The loop of `_request`, from the attempt `n` on.
  unfoldable pub attempts_from : ℕ → ℕ → W → Run W
  attempts_from zero n w = record { outcome = out_of_fuel; attempts = n; sleeps = []; world = w }
  attempts_from (suc fuel) n w =
      let (reply, w') = o.send n w in
      let now = o.time_of w' in
      elim (next_of n now reply) [
        | finish outcome ↦ record { outcome = outcome; attempts = n; sleeps = []; world = w' }
        | sleep_for delay ↦ slept (now, delay) (attempts_from fuel (suc n) (o.sleep delay w'))
      ]

-- `Beacn._request(...)` and `AsyncBeacn._request(...)`, once it is known whether the request is
-- idempotent. It runs on as many attempts as the policy allows.
unfoldable pub request : {W : Type 0} → Outside W → RetryPolicy → Bool → W → Run W
request o policy idempotent w =
    attempts_from o policy idempotent (o.time_of w) policy.max_attempts 1 w
