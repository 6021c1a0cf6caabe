-- ===== src/Events.antt =====
-- domain/events.py: `Envelope.ingest`, which validates what a producer sent against the context of
-- its key, and `parse_batch`.
pub mod Names
pub mod Model
pub mod Wire
pub mod Validation
pub mod Repeats
pub mod Defaults
pub mod Tests
pub use Model.*
use Prim.Native.String
use Prim.Native.String.{[], ◌∷◌}
use beacn.Base.{
  ℕ, zero, suc, ◌+◌, Bool, true, false, not, ◌&&◌, ◌||◌, String, code, List, Option, none, some,
  ltb, eqb, leb, size, is_empty, elem, length, all, or_default, ◌==◌, if◌then◌else◌,
}
use beacn.Base.Int.{ℤ, pos}
use beacn.Base.Strip.{strip}
use beacn.Base.Json.{
  Json, null, bool, num, str, arr, obj, Items, nil, cons, Fields, end, field, get?, get, is_true,
  or_else, if_true,
}
use beacn.Errors.{Result, ok, err, uncaught, raise, invalid, payload_too_large, ◌>>=◌, ◌>>◌}
use Names.{matches_event, matches_topic}

-- `is_valid_topic_name(name)`
unfoldable pub is_valid_topic_name : Json → Bool
is_valid_topic_name (str name) = matches_topic name && leb (size name) max_topic_name
is_valid_topic_name _ = false

-- `s.split(".", 1)[0]`
unfoldable pub first_segment : String → String
first_segment [] = ""
first_segment (c ∷ s) = let rest = first_segment s in if eqb (code c) b'.' then "" else c ∷ rest

abbrev pub has_prefix : String → String → Bool
has_prefix [] s = true
has_prefix (c ∷ p) [] = false
has_prefix (c ∷ p) (d ∷ s) = eqb (code c) (code d) && has_prefix p s

-- `part in s`
abbrev contains : String → String → Bool
contains part [] = has_prefix part ""
contains part (c ∷ s) = has_prefix part (c ∷ s) || contains part s

unfoldable pub kind_for : String → EventKind
kind_for name =
    let head = first_segment name in
    if head == "task"
    then EventKind.task
    else if head == "notification"
    then EventKind.notification
    else if head == "message"
        || head == "chat"
        || contains ".message." (String.◌++◌ "." (String.◌++◌ name "."))
    then EventKind.message
    else EventKind.event

-- `TASK_STATES.get(name)`
abbrev pub task_state : String → Option String
task_state name =
    if name == "task.created"
    then some "created"
    else if name == "task.started" || name == "task.progress"
    then some "started"
    else if name == "task.retrying"
    then some "retrying"
    else if name == "task.completed" || name == "task.succeeded"
    then some "completed"
    else if name == "task.failed"
    then some "failed"
    else if name == "task.revoked" || name == "task.cancelled"
    then some "revoked"
    else none

abbrev absent : Bool → String → Result (Option String)
absent true name = invalid (String.◌++◌ name " is required")
absent false name = ok none

abbrev clean_text : String → String → ℕ → Bool → Result (Option String)
clean_text value name max_len required =
    if is_empty value
    then absent required name
    else if ltb max_len (size value)
    then invalid (String.◌++◌ name " is too long")
    else ok (some value)

-- `_clean_str(value, field_name, max_len=…, required=…)`
unfoldable pub clean_str : Json → String → ℕ → Bool → Result (Option String)
clean_str null name max_len required = absent required name
clean_str (str s) name max_len required =
    if is_empty s then absent required name else clean_text (strip s) name max_len required
clean_str _ name max_len required = invalid (String.◌++◌ name " must be a string")

-- `s.replace("Z", "+00:00")`
abbrev replace_z : String → String
replace_z [] = ""
replace_z (c ∷ s) =
    let rest = replace_z s in if eqb (code c) b'Z' then String.◌++◌ "+00:00" rest else c ∷ rest

abbrev bad_time : String → Result (Option Time)
bad_time name = invalid (String.◌++◌ name " is not a valid timestamp")

-- `datetime.fromtimestamp` may raise, and nothing here catches that.
abbrev timestamp_or_raise : Option Time → Result (Option Time)
timestamp_or_raise none = err uncaught
timestamp_or_raise (some t) = ok (some t)

abbrev iso_or_invalid : Option Time → String → Result (Option Time)
iso_or_invalid none name = bad_time name
iso_or_invalid (some t) name = ok (some t)

abbrev bool_number : Bool → ℤ
bool_number true = pos 1
bool_number false = pos 0

-- `_parse_dt(value, field_name)`; a bool is an int.
unfoldable pub parse_dt : Python → Json → String → Result (Option Time)
parse_dt py null name = ok none
parse_dt py (num n d) name = timestamp_or_raise (py.from_timestamp n d)
parse_dt py (bool b) name = timestamp_or_raise (py.from_timestamp (bool_number b) 0)
parse_dt py (str s) name = iso_or_invalid (py.from_iso_format (replace_z (strip s))) name
parse_dt py _ name = bad_time name

-- The event name: present, of at most 200 characters, and dotted.
unfoldable pub event_name : Fields → Result String
event_name body = do
  name ← clean_str (get body "event") "event" max_event_name true
  if matches_event (or_default name "")
      then ok (or_default name "")
      else invalid "event must be a dotted name like 'payment.completed'"

-- The topic, by default the first segment of the event's name.
unfoldable pub topic_name : Fields → String → Result String
topic_name body name = do
  given ← clean_str (get body "topic") "topic" max_topic_name false
  if matches_topic (or_default given (first_segment name))
      then ok (or_default given (first_segment name))
      else invalid "topic contains invalid characters"

abbrev one_of_severities : Json → Result String
one_of_severities (str s) =
    if elem s severities then ok s else invalid "severity must be one of the severities"
one_of_severities _ = invalid "severity must be one of the severities"

unfoldable pub severity_of : Fields → Result String
severity_of body = one_of_severities (or_else (get body "severity") (str "info"))

abbrev object_or_invalid : Json → Result Fields
object_or_invalid null = ok end
object_or_invalid (obj fs) = ok fs
object_or_invalid _ = invalid "data must be a JSON object"

-- `body.get("data", {})`, an object of at most 256 KiB.
unfoldable pub payload_of : Python → Fields → Result Fields
payload_of py body = do
  fs ← object_or_invalid (get body "data")
  if ltb max_data_bytes (py.dumped_bytes fs)
      then raise payload_too_large "data exceeds the 256 KiB limit"
      else ok fs

unfoldable pub schema_version_of : Fields → Result String
schema_version_of body = do
  version ← clean_str (or_else (get body "schema_version") (str "1")) "schema_version" 32 false
  ok (or_default version "1")

-- `str(v)`, where `v` is not None.
abbrev text_of : Python → Json → Option String
text_of py null = none
text_of py (str s) = some s
text_of py v = some (py.str_of v)

abbrev status_of : Option String → Json → Option Json
status_of (some s) given = some (str s)
status_of none given = if_true given

-- `_with_task_fields`
unfoldable pub with_task_fields : Python → Envelope → Envelope
with_task_fields py env = record env {
  task_id = text_of py (or_else (get env.payload "task_id") (get env.payload "id"));
  task_name = if_true (or_else (get env.payload "name") (get env.payload "task"));
  task_status = status_of (task_state env.event) (get env.payload "status");
}

abbrev is_task : EventKind → Bool
is_task EventKind.task = true
is_task _ = false

-- What `Envelope.ingest` validates before it builds the envelope.
pub record Core : Type 0 where
  pub name : String
  pub topic : String
  pub severity : String
  pub payload : Fields
  pub version : String

-- The optional fields, validated in this order while the envelope is built.
pub record Optional : Type 0 where
  pub source : Option String
  pub occurred : Option Time
  pub correlation : Option String
  pub request : Option String
  pub user : Option String
  pub organization : Option String
  pub project : Option String
  pub idempotency : Option String

unfoldable pub core_of : Python → Fields → Result Core
core_of py body = do
  name ← event_name body
  topic ← topic_name body name
  severity ← severity_of body
  payload ← payload_of py body
  version ← schema_version_of body
  ok (record {
    name = name;
    topic = topic;
    severity = severity;
    payload = payload;
    version = version;
  })

-- `_clean_str(body.get(key), key, max_len=200)`
unfoldable pub text_at : Fields → String → Result (Option String)
text_at body key = clean_str (get body key) key 200 false

unfoldable pub optional_of : Python → Fields → Result Optional
optional_of py body = do
  source ← text_at body "source"
  occurred ← parse_dt py (get body "occurred_at") "occurred_at"
  correlation ← text_at body "correlation_id"
  request ← text_at body "request_id"
  user ← text_at body "user_id"
  organization ← text_at body "organization_id"
  project ← text_at body "project_id"
  idempotency ← text_at body "idempotency_key"
  ok (record {
    source = source;
    occurred = occurred;
    correlation = correlation;
    request = request;
    user = user;
    organization = organization;
    project = project;
    idempotency = idempotency;
  })

-- `cls(id=…, event=…, …)`
unfoldable pub build : Core → Optional → ProducerContext → Time → String → Envelope
build core opt ctx ts id = record {
  id = id;
  event = core.name;
  topic = core.topic;
  producer = ctx.producer;
  environment = ctx.environment;
  timestamp = ts;
  kind = kind_for core.name;
  source = opt.source;
  occurred_at = opt.occurred;
  correlation_id = opt.correlation;
  request_id = opt.request;
  user_id = opt.user;
  organization_id = opt.organization;
  project_id = opt.project;
  schema_version = core.version;
  severity = core.severity;
  idempotency_key = opt.idempotency;
  payload = core.payload;
  task_id = none;
  task_name = none;
  task_status = none;
  producer_id = ctx.producer_id;
  api_key_id = ctx.api_key_id;
}

-- `Envelope.ingest(body, ctx, now=ts, event_id=id)` on a JSON object; the caller's `now` and the id
-- that `new_id(EVENT)` draws are arguments.
unfoldable pub ingest_object : Python → Fields → ProducerContext → Time → String → Result Envelope
ingest_object py body ctx ts id = do
  core ← core_of py body
  opt ← optional_of py body
  let env = build core opt ctx ts id
  if is_task env.kind then ok (with_task_fields py env) else ok env

unfoldable pub ingest : Python → Json → ProducerContext → Time → String → Result Envelope
ingest py (obj body) ctx ts id = ingest_object py body ctx ts id
ingest py _ ctx ts id = invalid "event must be a JSON object"

abbrev pub items : Items → List Json
items nil = List.[]
items (cons v vs) = List.◌∷◌ v (items vs)

abbrev events_or_self : Fields → Json → List Json
events_or_self body (arr vs) = items vs
events_or_self body _ = List.◌∷◌ (obj body) List.[]

abbrev is_object : Json → Bool
is_object (obj fs) = true
is_object _ = false

-- The tests of `parse_batch` on the list of events.
abbrev checked_batch : List Json → Result (List Json)
checked_batch vs =
    if eqb (length vs) 0
    then invalid "no events in request"
    else if ltb max_batch (length vs)
    then invalid "batch is larger than 500 events"
    else if all is_object vs
    then ok vs
    else invalid "every event must be an object"

unfoldable pub parse_batch : Json → Result (List Json)
parse_batch (obj body) = checked_batch (events_or_self body (get body "events"))
parse_batch (arr vs) = checked_batch (items vs)
parse_batch _ = invalid "request body must be an object or a list of objects"
