-- ===== src/Errors.antt =====
-- domain/errors.py: the errors of the domain, and what the REST layer makes of them. An error's
-- `details` are left out. An exception of another class is `uncaught`: the handlers pass it on.
use beacn.Base.{ℕ, String, Option, none, ◌≡◌, refl, Bool, true, false, if◌then◌else◌}

pub data Kind : Type 0 where
  error validation authentication authorization not_found conflict : Kind
  payload_too_large rate_limited dependency : Kind

-- The class attribute `status`.
abbrev pub status : Kind → ℕ
status error = 400
status validation = 422
status authentication = 401
status authorization = 403
status not_found = 404
status conflict = 409
status payload_too_large = 413
status rate_limited = 429
status dependency = 503

-- The class attribute `code`.
abbrev pub class_code : Kind → String
class_code error = "error"
class_code validation = "invalid"
class_code authentication = "unauthenticated"
class_code authorization = "forbidden"
class_code not_found = "not_found"
class_code conflict = "conflict"
class_code payload_too_large = "payload_too_large"
class_code rate_limited = "rate_limited"
class_code dependency = "unavailable"

pub record BeacnError : Type 0 where
  pub kind : Kind
  pub error_code : String
  pub message : String
  -- In hundredths of a second; only of `RateLimitedError`.
  pub retry_after : Option ℕ

-- `Class(message)`
abbrev pub raise_as : Kind → String → BeacnError
raise_as kind message = record {
  kind = kind;
  error_code = class_code kind;
  message = message;
  retry_after = none;
}

pub data Failure : Type 0 where
  beacn_error : BeacnError → Failure
  uncaught : Failure

pub data Result {ℓ} (A : Type ℓ) : Type ℓ where
  ok : A → Result A
  err : Failure → Result A

infixl 5 ◌>>=◌ ◌>>◌
abbrev pub ◌>>=◌ {ℓ κ} : {A : Type ℓ} {B : Type κ} → Result A → (A → Result B) → Result B
ok a >>= f = f a
err e >>= f = err e

abbrev pub ◌>>◌ {ℓ κ} : {A : Type ℓ} {B : Type κ} → Result A → Result B → Result B
m >> k = m >>= λ _. k

-- `raise Class(message)`
abbrev pub raise {ℓ} : {A : Type ℓ} → Kind → String → Result A
raise kind message = err (beacn_error (raise_as kind message))

abbrev pub invalid {ℓ} : {A : Type ℓ} → String → Result A
invalid message = raise validation message

-- What a successful sequence went through.
pub bind-eq-ok {ℓ κ} :
    {A : Type ℓ} {B : Type κ} (m : Result A) (k : A → Result B) {b : B}
    → (m >>= k) ≡ ok b
    → (a : A) × (m ≡ ok a) × (k a ≡ ok b)
bind-eq-ok (ok a) k h = (a, refl, h)
bind-eq-ok (err e) k h = cc

pub if-eq-ok {ℓ} :
    {A : Type ℓ} (b : Bool) (a : A) (e : Failure) {a' : A}
    → (if b then ok a else err e) ≡ ok a'
    → (b ≡ true) × (a ≡ a')
if-eq-ok true a e h = (refl, cc)
if-eq-ok false a e h = absurd (cc)

pub ok-injective {ℓ} : {A : Type ℓ} {a b : A} → ok a ≡ ok b → a ≡ b
ok-injective h = cc
