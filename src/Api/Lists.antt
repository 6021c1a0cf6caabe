-- ===== src/Api/Lists.antt =====
-- The routes of routes/api/v1.py that read: events, the replay and tasks. `parameters` are the query
-- parameters of the request; `int_of` is `int` of a text, and `time_of` is `datetime.fromisoformat` of
-- a text whose "Z" is replaced, in UTC; both are none where it raises ValueError.
use beacn.Base.{
  ℕ, Bool, true, ◌&&◌, ◌||◌, String, List, Option, none, some, or_default, is_empty, find, keep,
  ◌==◌, if◌then◌else◌,
}
use beacn.Base.Int.{ℤ}
use beacn.Base.Json.{Json, str}
use beacn.Errors.{Result, ok, ◌>>=◌, raise, invalid, not_found}
use beacn.Events.Model.{Time}
use beacn.Events.Wire.{Wire, stored_wire}
use beacn.Store.{Table}
use beacn.Store.Order.{str_gtb}
use beacn.Paging.{Page, page_of, behind}
use beacn.History.{HistoryQuery, EventPage, query, get_one}
use beacn.Replay.{ReplayResult, replay}
use beacn.Tasks.{Task}
use beacn.Auth.{Producer}
use beacn.Notifications.{list_limit, limit_of}

-- `_parse_dt(value, field)`
abbrev pub parse_query_time : (String → Option Time) → Option String → Result (Option Time)
parse_query_time time_of value =
    if is_empty (or_default value "") then ok none else elim (time_of (or_default value "")) [
      | none ↦ invalid "not a valid ISO-8601 timestamp"
      | some t ↦ ok (some t)
    ]

abbrev pub Parameters : Type 0
Parameters = String → Option String

-- The query that the parameters make.
abbrev pub history_query : Producer → Parameters → Option Time → Option Time → ℤ → HistoryQuery
history_query producer parameters since until limit = record {
  environment = producer.environment;
  topic = parameters "topic";
  event = parameters "event";
  event_prefix = parameters "event_prefix";
  producer_id = parameters "producer_id";
  kind = parameters "kind";
  severity = parameters "severity";
  correlation_id = parameters "correlation_id";
  user_id = parameters "user_id";
  since = since;
  until = until;
  cursor = parameters "cursor";
  order = or_default (parameters "order") "desc";
  limit = limit;
}

-- `list_events(ctx)`
unfoldable pub list_events :
    (String → Option ℤ)
    → (String → Option Time)
    → (starts_with : String → String → Bool) → Producer
    → Parameters
    → Table
    → Result (EventPage starts_with)
list_events int_of time_of starts_with producer parameters events = do
  since ← parse_query_time time_of (parameters "since")
  until ← parse_query_time time_of (parameters "until")
  limit ← limit_of int_of (parameters "limit")
  ok (
      query starts_with (or_default (parameters "meta") "" == "1")
        (history_query producer parameters since until limit) events)

-- `get_event(ctx, event_id)`
unfoldable pub get_event : Producer → String → Table → Result Wire
get_event producer event_id events = elim (get_one producer.environment event_id events) [
  | none ↦ raise not_found "no event"
  | some row ↦ ok (stored_wire true row)
]

-- The body of a replay, with its fields typed; a field is none where the body does not have it.
pub record ReplayBody : Type 0 where
  pub topic : Option String
  pub since : Option String
  pub limit : Option ℕ
  pub meta : Bool

-- `replay_events(ctx)`
unfoldable pub replay_events : ℕ → Producer → ReplayBody → Table → Result ReplayResult
replay_events max_events producer body events =
    if is_empty (or_default body.topic "")
    then invalid "topic is required"
    else ok (
        replay max_events body.meta producer.environment (or_default body.topic "") body.since
          body.limit events)

-- `filter(column=value)` on a column that holds a text.
abbrev pub is_value : Option String → Option Json → Bool
is_value none column = true
is_value (some s) (some (str t)) = is_empty s || t == s
is_value (some s) column = is_empty s

abbrev pub is_listed_task : String → Parameters → Task → Bool
is_listed_task environment parameters task =
    task.environment == environment
    && is_value (parameters "status") (some task.status)
    && is_value (parameters "name") task.name

abbrev pub id_of_task : Task → String
id_of_task task = task.id

-- `list_tasks(ctx)`, on the table in the descending order of its ids.
unfoldable pub list_tasks :
    (String → Option ℤ) → Producer → Parameters → List Task → Result (Page Task)
list_tasks int_of producer parameters tasks = do
  limit ← limit_of int_of (parameters "limit")
  ok (
      page_of id_of_task (list_limit limit) (
        keep (behind id_of_task str_gtb (parameters "cursor"))
          (keep (is_listed_task producer.environment parameters) tasks)))

-- `get_task(ctx, task_id)`
unfoldable pub get_task : Producer → String → List Task → Result Task
get_task producer task_id tasks =
    elim (find (λ t. t.environment == producer.environment && t.task_id == task_id) tasks) [
      | some task ↦ ok task
      | none ↦ elim (find (λ t. t.environment == producer.environment && t.id == task_id) tasks) [
        | some task ↦ ok task
        | none ↦ raise not_found "no task"
      ]
    ]
