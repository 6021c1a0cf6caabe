-- ===== src/Api.antt =====
-- routes/api/_common.py: what every route of the producer API shares. A handler returns or raises, and
-- leaves a state either way; an exception that is no `BeacnError` is passed on to the framework.
pub mod Endpoint
pub mod Publish
pub mod Batches
pub mod Tokens
pub mod Lists
pub mod Isolation
pub mod Tests
use Prim.Native.String.{[], ◌∷◌}
use beacn.Base.{
  ℕ, suc, ◌+◌, ◌*◌, ◌-◌, Bool, true, false, ◌&&◌, ◌||◌, String, code, List, Option, none, some, ltb,
  leb, eqb, is_empty, map, ◌==◌, if◌then◌else◌,
}
use beacn.Base.Json.{Json}
use beacn.Errors.{
  Kind, status, error, payload_too_large, BeacnError, Failure, beacn_error, uncaught, Result, ok,
  err, ◌>>=◌, ◌>>◌, raise, raise_as,
}
use beacn.Events.Model.{Time}
use beacn.Auth.{ApiKey, Producer, resolve_api_key, require_scope}

pub record HttpRequest : Type 0 where
  pub authorization : Option String
  pub content_length : Option String
  pub ip : Option String
  -- The body, if it is JSON.
  pub body : Option Json

pub data Payload (B : Type 0) : Type 0 where
  payload : B → Payload B
  error_payload : (code message : String) → Payload B

pub record Response (B : Type 0) : Type 0 where
  pub status_code : ℕ
  pub retry_after : Option ℕ
  pub content : Payload B

-- What the client gets; the framework answers an exception that is passed on.
pub data Answer (B : Type 0) : Type 0 where
  answered : Response B → Answer B
  server_error : Answer B

-- `ok(payload, status)`
abbrev pub reply : {B : Type 0} → ℕ → B → Response B
reply code b = record { status_code = code; retry_after = none; content = payload b }

-- `_error(exc)`
unfoldable pub error_response : {B : Type 0} → BeacnError → Response B
error_response e = record {
  status_code = status e.kind;
  retry_after = e.retry_after;
  content = error_payload e.error_code e.message;
}

-- `read_json(ctx)`
unfoldable pub read_json : HttpRequest → Result Json
read_json request = elim request.body [
  | none ↦ err (
      beacn_error
        (record (raise_as error "request body is not valid JSON") { error_code = "invalid" }))
  | some v ↦ ok v
]

-- The digits of `str.isdigit` that a header can hold: those of ASCII, which `int` reads, and the
-- superscripts 1, 2 and 3, which it refuses.
pub data Digits : Type 0 where
  digits : ℕ → Digits
  superscript not_digits : Digits

abbrev pub is_superscript : ℕ → Bool
is_superscript c = eqb c 178 || eqb c 179 || eqb c 185

abbrev pub push_digit : ℕ → Digits → Digits
push_digit c (digits n) =
    if leb 48 c && leb c 57
    then digits (n * 10 + (c - 48))
    else if is_superscript c
    then superscript
    else not_digits
push_digit c superscript =
    if leb 48 c && leb c 57 || is_superscript c then superscript else not_digits
push_digit c not_digits = not_digits

abbrev pub digits_of : Digits → String → Digits
digits_of d [] = d
digits_of d (c ∷ s) = digits_of (push_digit (code c) d) s

abbrev pub over_limit : ℕ → Digits → Result Bool
over_limit limit (digits n) =
    if ltb limit n then raise payload_too_large "request body exceeds the limit" else ok true
over_limit limit superscript = err uncaught
over_limit limit not_digits = ok true

-- `enforce_size(ctx, limit)`
unfoldable pub enforce_size : HttpRequest → ℕ → Result Bool
enforce_size request limit = elim request.content_length [
  | none ↦ ok true
  | some raw ↦ if is_empty raw then ok true else over_limit limit (digits_of (digits 0) raw)
]

-- `for scope in scopes: require_scope(key, scope)`
unfoldable pub require_scopes : ApiKey → List String → Result ApiKey
require_scopes key List.[] = ok key
require_scopes key (List.◌∷◌ scope scopes) = require_scope key scope >> require_scopes key scopes

abbrev pub answer_of : {B S : Type 0} → Result (Response B) × S → Answer B × S
answer_of (ok r, s) = (answered r, s)
answer_of (err (beacn_error e), s) = (answered (error_response e), s)
answer_of (err uncaught, s) = (server_error, s)

-- `key.save(update_fields=[…])` of `resolve_api_key`: the counters of the key, if the database takes them.
unfoldable pub save_key : Bool → ApiKey → List ApiKey → List ApiKey
save_key false key keys = keys
save_key true key keys =
    map
      (λ k.
        if k.id == key.id
        then record k {
          request_count = key.request_count;
          last_used_at = key.last_used_at;
          last_used_ip = key.last_used_ip;
        }
        else k)
      keys

-- `producer_endpoint(*scopes)(handler)`: the answer with what the handler leaves, and the keys, whose
-- counters are saved before the scopes are looked at.
unfoldable pub producer_endpoint :
    {B S : Type 0}
    → (String → String)
    → List String
    → (ApiKey → Producer → S → Result (Response B) × S)
    → HttpRequest
    → (saves : Bool) → List ApiKey
    → Time
    → S
    → (Answer B × S) × List ApiKey
producer_endpoint hash_secret scopes handler request saves keys now s =
    elim (resolve_api_key hash_secret request.authorization request.ip keys now) [
      | err e ↦ (answer_of (err e, s), keys)
      | ok found ↦ (
        elim (require_scopes found.0 scopes) [
          | ok key ↦ answer_of (handler found.0 found.1 s)
          | err e ↦ answer_of (err e, s)
        ],
        save_key saves found.0 keys,
      )
    ]
