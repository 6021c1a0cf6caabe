-- ===== src/Sdk/Mirror.antt =====
-- The client raises for each error of the service the exception that stands for it.
use beacn.Base.{◌≡◌, false, String, Option, none, some, is_empty, ℕ, ap, or_default, arith}
use beacn.Base.Int.{ℤ, pos}
use beacn.Base.Json.{Json, Fields, null, num, str, obj, end, field}
use beacn.Errors.{
  Kind, status, error, validation, authentication, authorization, not_found, conflict,
  payload_too_large, rate_limited, dependency, BeacnError,
}
use beacn.Sdk.Errors as Sdk
use beacn.Sdk.Errors.{
  Values, ErrorClass, api_error, auth_error, validation_error, rate_limit_error, ApiError,
  error_for, retry_after_in,
}

-- The JSON that `_error` answers with: `{"error": exc.to_dict()}`; details of None are left out.
abbrev pub with_details : Option Json → Fields
with_details none = end
with_details (some details) = field "details" details end

unfoldable pub error_body : String → String → Option Json → Json
error_body code message details = obj (
    field "error"
      (obj (field "code" (str code) (field "message" (str message) (with_details details)))) end)

-- `details` of the error that the limiter raises: `int(self.rate * 60)` and `int(self.burst)`.
unfoldable pub limit_details : ℕ → ℕ → Json
limit_details rate burst =
    obj (field "limit_per_minute" (num (pos rate) 0) (field "burst" (num (pos burst) 0) end))

-- The class of the client for each class of the domain.
abbrev pub class_of : Kind → ErrorClass
class_of error = api_error
class_of validation = validation_error
class_of authentication = auth_error
class_of authorization = auth_error
class_of not_found = Sdk.not_found
class_of conflict = api_error
class_of payload_too_large = api_error
class_of rate_limited = rate_limit_error
class_of dependency = api_error

-- What the client makes of details for an error of the limiter.
abbrev pub wait_of : Values → Kind → Json → Option ℤ
wait_of v rate_limited details = some (retry_after_in v details)
wait_of v kind details = none

error_for-kind :
    (v : Values) (kind : Kind) (code message request_id : String) (details : Option Json)
    → is_empty message ≡ false
    → error_for v (status kind) (error_body code message details) request_id ≡ record {
      error_class = class_of kind;
      message = str message;
      status = some (status kind);
      code = str code;
      details = or_default details null;
      request_id = some request_id;
      retry_after = wait_of v kind (or_default details null);
    }
unfolding error_for error_body
error_for-kind v kind code message request_id none named = ground arith
error_for-kind v kind code message request_id (some details) named = ground arith

-- What the client raises for an error of the domain keeps its class, its code, its message, if that is
-- not empty, its details and its status. Its `retry_after` is read from the details; an error of the
-- limiter, whose details are its rate and its burst, gives one second, whatever time it named.
pub error_for-error_body :
    (v : Values) (e : BeacnError) (details : Option Json) (rate burst : ℕ) (request_id : String)
    → is_empty e.message ≡ false
    → (error_for v (status e.kind) (error_body e.error_code e.message details) request_id ≡ record {
      error_class = class_of e.kind;
      message = str e.message;
      status = some (status e.kind);
      code = str e.error_code;
      details = or_default details null;
      request_id = some request_id;
      retry_after = wait_of v e.kind (or_default details null);
    })
      × ((error_for v 429
            (error_body e.error_code e.message (some (limit_details rate burst)))
            request_id).retry_after
          ≡ some v.one_second)
unfolding limit_details
error_for-error_body v e details rate burst request_id named = (
  error_for-kind v e.kind e.error_code e.message request_id details named,
  ap (λ x. x.retry_after)
      (error_for-kind v rate_limited e.error_code e.message request_id
        (some (limit_details rate burst)) named),
)
