-- ===== src/Events/Model.antt =====
-- domain/events.py: the envelope, its limits and its vocabularies.
use beacn.Base.{ℕ, String, Option, List, [], ◌∷◌}
use beacn.Base.Int.{ℤ}
use beacn.Base.Json.{Json, Fields}

-- A point in time: microseconds from the epoch, UTC.
abbrev pub Time : Type 0
Time = ℤ

abbrev pub max_data_bytes : ℕ
max_data_bytes = 262144

abbrev pub max_event_name : ℕ
max_event_name = 200

abbrev pub max_topic_name : ℕ
max_topic_name = 200

abbrev pub max_batch : ℕ
max_batch = 500

abbrev pub severities : List String
severities = "debug" ∷ "info" ∷ "notice" ∷ "warning" ∷ "error" ∷ "critical" ∷ []

pub data EventKind : Type 0 where
  event task notification message : EventKind

pub record ProducerContext : Type 0 where
  pub producer : String
  pub producer_id : Option String
  pub environment : String
  pub api_key_id : Option String

pub record Envelope : Type 0 where
  pub id : String
  pub event : String
  pub topic : String
  pub producer : String
  pub environment : String
  pub timestamp : Time
  pub kind : EventKind
  pub source : Option String
  pub occurred_at : Option Time
  pub correlation_id : Option String
  pub request_id : Option String
  pub user_id : Option String
  pub organization_id : Option String
  pub project_id : Option String
  pub schema_version : String
  pub severity : String
  pub idempotency_key : Option String
  pub payload : Fields
  pub task_id : Option String
  pub task_name : Option Json
  pub task_status : Option Json
  pub producer_id : Option String
  pub api_key_id : Option String

-- What the code calls of Python's standard library on values that are not texts, and cannot be read
-- off the source: `len(json.dumps(v, separators=(",", ":")).encode())`, `str(v)` of a JSON value that
-- is not a text, `datetime.fromisoformat(s)` taken to UTC (none on ValueError), and
-- `datetime.fromtimestamp(n / (d + 1), tz=UTC)` (none where it raises: out of range).
pub record Python : Type 0 where
  pub dumped_bytes : Fields → ℕ
  pub str_of : Json → String
  pub from_iso_format : String → Option Time
  pub from_timestamp : ℤ → ℕ → Option Time
