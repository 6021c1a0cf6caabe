-- ===== src/Sdk/Errors.antt =====
-- `_error_for` of sdk/python/beacn.py: the exception that stands for an answer of the service.
use Prim.Native.String
use beacn.Base.{ℕ, ◌||◌, String, Option, none, some, or_default, is_empty, eqb, if◌then◌else◌}
use beacn.Base.Int.{ℤ}
use beacn.Base.Json.{Json, null, str, obj, end, get, get?, or_else}

-- The classes of `APIError`.
pub data ErrorClass : Type 0 where
  api_error auth_error not_found validation_error rate_limit_error : ErrorClass

-- `APIError`; `retry_after` is an attribute of `RateLimitError` alone. A message that the SDK makes
-- is a text, one of the service's any JSON.
pub record ApiError : Type 0 where
  pub error_class : ErrorClass
  pub message : Json
  pub status : Option ℕ
  pub code : Json
  pub details : Json
  pub request_id : Option String
  pub retry_after : Option ℤ

-- What Python makes of values: `float`, in the unit of the delays, where it does not raise TypeError
-- or ValueError; the text of an int; and the float 1.0.
pub record Values : Type 0 where
  pub float_of : Json → Option ℤ
  pub str_of_int : ℕ → String
  pub one_second : ℤ

-- `err.get(key) if isinstance(err, dict) else None`
abbrev pub member : String → Json → Json
member key (obj e) = get e key
member key v = null

-- `payload.get("error") or payload`, of a dict, and else an empty dict.
abbrev pub error_member : Json → Json
error_member (obj p) = or_else (get p "error") (obj p)
error_member v = obj end

-- `header or request_id`
abbrev pub given_or_own : Option String → String → String
given_or_own header own = if is_empty (or_default header "") then own else or_default header ""

-- The class of an error for its status.
abbrev pub class_for : ℕ → ErrorClass
class_for status =
    if eqb status 401 || eqb status 403
    then auth_error
    else if eqb status 404
    then not_found
    else if eqb status 422
    then validation_error
    else if eqb status 429
    then rate_limit_error
    else api_error

module _ (v : Values) where
  abbrev pub second_or : Option ℤ → ℤ
  second_or none = v.one_second
  second_or (some t) = t

  abbrev pub float_of_member : Option Json → ℤ
  float_of_member none = v.one_second
  float_of_member (some t) = second_or (v.float_of t)

  -- `float((details or {}).get("retry_after", 1.0))`, and 1.0 where that raises.
  abbrev pub retry_after_in : Json → ℤ
  retry_after_in (obj details) = float_of_member (get? details "retry_after")
  retry_after_in details = v.one_second

  abbrev pub own_retry_after : ErrorClass → Json → Option ℤ
  own_retry_after rate_limit_error details = some (retry_after_in details)
  own_retry_after c details = none

  -- `_error_for(status, payload, request_id)`
  unfoldable pub error_for : ℕ → Json → String → ApiError
  error_for status payload request_id =
      let e = error_member payload in
      record {
        error_class = class_for status;
        message = or_else (member "message" e) (str (String.◌++◌ "HTTP " (v.str_of_int status)));
        status = some status;
        code = member "code" e;
        details = member "details" e;
        request_id = some request_id;
        retry_after = own_retry_after (class_for status) (member "details" e);
      }

-- `APIError("request failed: %s" % e, request_id=request_id)`
unfoldable pub failed_request : String → String → ApiError
failed_request message request_id = record {
  error_class = api_error;
  message = str (String.◌++◌ "request failed: " message);
  status = none;
  code = null;
  details = null;
  request_id = some request_id;
  retry_after = none;
}
