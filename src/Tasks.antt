-- ===== src/Tasks.antt =====
-- database/models/task.py: the row of a task that BEACN observes, and what an event makes of it.
-- The row is fetched and saved by the caller of `apply_event`; times stand for microseconds.
pub mod Lifecycle
pub mod Tests
use beacn.Base.{
  ℕ, zero, suc, ◌+◌, ltb, leb, Bool, true, false, ◌&&◌, ◌||◌, not, String, List, [], ◌∷◌, Option,
  none, some, is_some, is_none, is_empty, ◌==◌, if◌then◌else◌,
}
use beacn.Base.Int.{ℤ, pos, negsuc}
use beacn.Base.Json.{Json, null, bool, num, str, arr, obj, Fields, get, get?, is_true, or_else}
use beacn.Errors.{Result, ok, err, uncaught, ◌>>=◌}
use beacn.Events.Model.{Time, Envelope}

-- A `float`: n / (d + 1), or one of the values that are no number.
pub data Float : Type 0 where
  finite : ℤ → ℕ → Float
  infinity minus_infinity not_a_number : Float

-- How a call of the standard library ends.
pub data Outcome (A : Type 0) : Type 0 where
  value : A → Outcome A
  value_error : Outcome A
  type_error : Outcome A
  other_error : Outcome A

-- `float(v)`, `int(v)`, `str(v)[:8000]`, `datetime.fromtimestamp(n / (d + 1), tz=UTC)` and
-- `datetime.fromisoformat(str(v).replace("Z", "+00:00"))` taken to UTC.
pub record Library : Type 0 where
  pub float_of : Json → Outcome Float
  pub int_of : Json → Outcome ℤ
  pub error_text : Json → String
  pub from_timestamp : ℤ → ℕ → Outcome Time
  pub from_iso_format : Json → Outcome Time

pub record Task : Type 0 where
  pub id : String
  pub environment : String
  pub task_id : String
  pub name : Option Json
  pub topic : String
  pub producer_id : Option String
  pub producer_name : Option String
  pub status : Json
  pub progress : Option Float
  pub attempts : ℤ
  pub error : Option String
  pub result : Option Json
  pub correlation_id : Option String
  pub started_at : Option Time
  pub finished_at : Option Time
  pub last_event_id : Option String

-- `status in TERMINAL`, for a status that can be hashed.
unfoldable pub is_terminal : Json → Bool
is_terminal (str s) = s == "completed" || s == "failed" || s == "revoked"
is_terminal _ = false

-- A list and a dict have no hash: `in` raises TypeError.
abbrev pub is_hashable : Json → Bool
is_hashable (arr vs) = false
is_hashable (obj fs) = false
is_hashable _ = true

-- None, where the envelope has no status.
abbrev pub status_value : Option Json → Json
status_value none = null
status_value (some v) = v

-- `cls(id=…, …)`
unfoldable pub new_task : String → String → Envelope → Task
new_task id task_id env = record {
  id = id;
  environment = env.environment;
  task_id = task_id;
  name = env.task_name;
  topic = env.topic;
  producer_id = env.producer_id;
  producer_name = some env.producer;
  status = str "created";
  progress = none;
  attempts = pos 0;
  error = none;
  result = none;
  correlation_id = env.correlation_id;
  started_at = none;
  finished_at = none;
  last_event_id = none;
}

abbrev has_value : Option Json → Bool
has_value none = false
has_value (some v) = is_true v

-- `if env.task_name and not row.name: row.name = env.task_name`
unfoldable pub with_name : Envelope → Task → Task
with_name env row =
    if has_value env.task_name && not (has_value row.name)
    then record row { name = env.task_name }
    else row

-- Never move a terminal task backwards.
unfoldable pub with_status : Json → Task → Task
with_status status row =
    if is_true status && not (is_terminal row.status && not (is_terminal status))
    then record row { status = status }
    else row

abbrev zero_float : Float
zero_float = finite (pos 0) 0

abbrev one_float : Float
one_float = finite (pos 1) 0

-- `max(0.0, min(1.0, x))`; a comparison with nan is false.
unfoldable pub clamp : Float → Float
clamp (finite (negsuc n) d) = zero_float
clamp (finite (pos zero) d) = zero_float
clamp (finite (pos (suc n)) d) = if leb (suc n) d then finite (pos (suc n)) d else one_float
clamp infinity = one_float
clamp minus_infinity = zero_float
clamp not_a_number = one_float

abbrev set_progress : Task → Outcome Float → Result Task
set_progress row (value x) = ok (record row { progress = some (clamp x) })
set_progress row value_error = ok row
set_progress row type_error = ok row
set_progress row other_error = err uncaught

-- `if "progress" in data`
abbrev given_progress : Library → Task → Option Json → Result Task
given_progress lib row none = ok row
given_progress lib row (some v) = set_progress row (lib.float_of v)

unfoldable pub with_progress : Library → Fields → Task → Result Task
with_progress lib payload row = given_progress lib row (get? payload "progress")

abbrev next_attempt : ℤ → ℤ
next_attempt (pos n) = pos (suc n)
next_attempt (negsuc zero) = pos 0
next_attempt (negsuc (suc n)) = negsuc n

abbrev set_attempts : Task → Outcome ℤ → Result Task
set_attempts row (value n) = ok (record row { attempts = n })
set_attempts row _ = err uncaught

-- `int(data.get("attempt") or row.attempts + 1)`
unfoldable pub with_attempts : Library → String → Fields → Task → Result Task
with_attempts lib event payload row =
    let given = get payload "attempt" in
    if event == "task.retrying"
    then (if is_true given
        then set_attempts row (lib.int_of given)
        else ok (record row { attempts = next_attempt row.attempts }))
    else ok row

abbrev is_null : Json → Bool
is_null null = true
is_null _ = false

unfoldable pub with_outcome : Library → Fields → Task → Task
with_outcome lib payload row =
    let failure = get payload "error" in
    let result = get payload "result" in
    record row {
      error = if is_true failure then some (lib.error_text failure) else row.error;
      result = if is_null result then row.result else some result;
    }

abbrev or_none : Outcome Time → Result (Option Time)
or_none (value t) = ok (some t)
or_none value_error = ok none
or_none type_error = err uncaught
or_none other_error = err uncaught

abbrev bool_number : Bool → ℤ
bool_number true = pos 1
bool_number false = pos 0

-- `data_dt(data, key)`; only ValueError is caught.
unfoldable pub data_dt : Library → Json → Result (Option Time)
data_dt lib null = ok none
data_dt lib (num n d) = or_none (lib.from_timestamp n d)
data_dt lib (bool b) = or_none (lib.from_timestamp (bool_number b) 0)
data_dt lib v = or_none (lib.from_iso_format v)

abbrev pub given_or : Option Time → Time → Time
given_or none now = now
given_or (some t) now = t

abbrev is_started : Json → Bool
is_started (str s) = s == "started"
is_started _ = false

abbrev set_started : Time → Task → Option Time → Result Task
set_started now row given = ok (record row { started_at = some (given_or given now) })

unfoldable pub with_started : Library → Json → Fields → Time → Task → Result Task
with_started lib status payload now row =
    if is_started status && is_none row.started_at
    then data_dt lib (get payload "started_at") >>= set_started now row
    else ok row

abbrev started_or : Option Time → Time → Option Time
started_or none finished = some finished
started_or (some t) finished = some t

abbrev set_finished : Time → Task → Option Time → Result Task
set_finished now row given = ok (record row {
  finished_at = some (given_or given now);
  started_at = started_or row.started_at (given_or given now);
})

unfoldable pub with_finished : Library → Json → Fields → Time → Task → Result Task
with_finished lib status payload now row =
    if is_terminal status
    then data_dt lib (get payload "finished_at") >>= set_finished now row
    else ok row

-- What is done to the row that was fetched or made, up to `row.save()`.
unfoldable pub observe : Library → Envelope → Task → Result Task
observe lib env row =
    let status = status_value env.task_status in
    let named = with_status status (with_name env row) in
    if is_hashable status
    then (with_progress lib env.payload named >>= λ moved.
        with_attempts lib env.event env.payload moved >>= λ tried.
        with_started lib status env.payload env.timestamp (with_outcome lib env.payload tried)
        >>= λ begun. with_finished lib status env.payload env.timestamp begun >>= λ ended.
            ok (record ended { last_event_id = some env.id }))
    else err uncaught

-- `Task.apply_event(env)`: `fetched` is the row of its environment and task id, and `id` the ULID of
-- a new row. The result is the row that is saved; none where the event names no task.
unfoldable pub apply_event : Library → String → Envelope → Option Task → Result (Option Task)
apply_event lib id env fetched = elim env.task_id [
  | none ↦ ok none
  | some task_id ↦
      if is_empty task_id
      then ok none
      else (observe lib env (elim fetched [ none ↦ new_task id task_id env | some row ↦ row ])
          >>= λ row. ok (some row))
]
