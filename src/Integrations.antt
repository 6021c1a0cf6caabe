-- ===== src/Integrations.antt =====
-- integrations/celery.py: the signals of Celery, republished as events of the service.
pub mod Repeats
pub mod Tests
use Prim.Native.String
use beacn.Base.{
  ℕ, zero, suc, ◌+◌, Bool, true, false, String, List, Option, none, some, or_default, is_empty,
  ◌==◌, if◌then◌else◌,
}
use beacn.Base.Int.{ℤ, pos}
use beacn.Base.Json.{Json, null, num, str, obj, Fields, end, field, get?}
use beacn.Sdk.Body.{Defaults, add_field, publish_body}

-- `_SIGNAL_EVENT[signal]`, none where it raises KeyError
unfoldable pub signal_event : String → Option String
signal_event signal =
    if signal == "before_task_publish"
    then some "task.created"
    else if signal == "task_prerun"
    then some "task.started"
    else if signal == "task_retry"
    then some "task.retrying"
    else if signal == "task_success"
    then some "task.completed"
    else if signal == "task_failure"
    then some "task.failed"
    else if signal == "task_revoked"
    then some "task.revoked"
    else none

-- What a hook hands to `_emit`: the text of the task's id, and the results of Celery, of any type, as
-- `_safe` leaves them.
pub record Signalled : Type 0 where
  pub task_id : String
  pub name : Option String
  pub retries : Option ℕ
  pub error : Option String
  pub result : Option Json
  pub runtime_ms : Option ℤ
  pub correlation_id : Option String

-- `s[:n]`
unfoldable pub take_chars : ℕ → String → String
take_chars zero s = ""
take_chars (suc n) String.[] = ""
take_chars (suc n) (String.◌∷◌ c s) = String.◌∷◌ c (take_chars n s)

abbrev if_given : {A : Type 0} → String → (A → Json) → Option A → Fields → Fields
if_given key f none fs = fs
if_given key f (some a) fs = field key (f a) fs

abbrev if_named : Option String → Fields → Fields
if_named name fs =
    if is_empty (or_default name "") then fs else field "name" (str (or_default name "")) fs

abbrev int_json : ℤ → Json
int_json n = num n 0

-- `d[key] = v`
unfoldable pub put : String → Json → Fields → Fields
put key v end = field key v end
put key v (field k w fs) =
    let rest = put key v fs in if k == key then field k v fs else field k w rest

-- `data.update(extra)`
unfoldable pub update : Fields → Fields → Fields
update fs end = fs
update fs (field k v extra) = update (put k v fs) extra

-- The data of `event_for(signal, ..., extra=extra)`.
unfoldable pub event_data : Signalled → Fields → Fields
event_data s extra =
    update
      (field "task_id" (str s.task_id) (
        if_named s.name (
          if_given "attempt" (λ (n : ℕ). num (pos (n + 1)) 0) s.retries
            (if_given "error" (λ e. str (take_chars 8000 e)) s.error
              (if_given "result" (λ v. v) s.result
                (if_given "duration_ms" int_json s.runtime_ms end))))))
      extra

abbrev pub text_or_null : Option String → Json
text_or_null none = null
text_or_null (some s) = str s

-- `f"{data['task_id']}:{event}"`
abbrev pub event_key : String → String → String
event_key task_id event = String.◌++◌ task_id (String.◌++◌ ":" event)

abbrev severity_for : String → String
severity_for event = if event == "task.failed" then "error" else "info"

-- The keywords that `_emit` publishes with.
abbrev pub emit_kw : Option String → String → Signalled → Fields
emit_kw source event s = field "source" (text_or_null source) (
    field "severity" (str (severity_for event)) (
      field "correlation_id" (text_or_null s.correlation_id)
        (field "idempotency_key" (str (event_key s.task_id event)) end)))

-- The body that `_emit(signal, **kw)` publishes; none where it returns. No hook gives `extra`.
unfoldable pub emit : Defaults → String → Option String → String → Signalled → Option Fields
emit defaults topic source signal s = elim (signal_event signal) [
  | none ↦ none
  | some event ↦ some (
      publish_body defaults event (some topic) (some (obj (event_data s end)))
        (emit_kw source event s))
]

abbrev signalled : String → Option String → Signalled
signalled task_id name = record {
  task_id = task_id;
  name = name;
  retries = none;
  error = none;
  result = none;
  runtime_ms = none;
  correlation_id = none;
}

-- The hooks: the signal and what they hand on. An id that the request does not have is "unknown", and
-- `repr` of an exception is a text.
unfoldable pub before_publish : Option String → Option String → Option String → String × Signalled
before_publish id sender correlation = (
  "before_task_publish",
  record (signalled (or_default id "unknown") sender) { correlation_id = correlation },
)

unfoldable pub prerun : String → Option String → Option String → String × Signalled
prerun task_id name correlation =
    ("task_prerun", record (signalled task_id name) { correlation_id = correlation })

unfoldable pub retry : Option String → Option String → Option ℕ → String → String × Signalled
retry id name retries reason = (
  "task_retry",
  record (signalled (or_default id "unknown") name) {
    retries = some (or_default retries 0);
    error = some reason;
  },
)

unfoldable pub success : Option String → Option String → Option Json → Option ℤ → String × Signalled
success id name result runtime_ms = (
  "task_success",
  record (signalled (or_default id "unknown") name) { result = result; runtime_ms = runtime_ms },
)

unfoldable pub failure : String → Option String → String → String × Signalled
failure task_id name exception =
    ("task_failure", record (signalled task_id name) { error = some exception })

unfoldable pub revoked : Option String → Option String → String × Signalled
revoked id task = ("task_revoked", signalled (or_default id "unknown") task)
