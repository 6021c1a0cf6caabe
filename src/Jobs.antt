-- ===== src/Jobs.antt =====
-- app/jobs.py, and `sweep_idempotency` of app/services/ingest.py: the background jobs. A job reads the
-- clock once; a deletion keeps the rows that its filter does not fit.
pub mod Retention
pub mod Gaps
pub mod Tests
use beacn.Base.{
  ℕ, zero, suc, ◌+◌, ◌-◌, ◌*◌, Bool, true, false, ◌&&◌, ◌||◌, not, String, List, [], ◌∷◌, Option,
  none, some, any, find, keep, map, length, ◌==◌, if◌then◌else◌,
}
use beacn.Base.Int.{ℤ, pos, negsuc, ◌-ℤ◌, ltb_ℤ}
use beacn.Base.Json.{Json, str}
use beacn.Events.Model.{Time}
use beacn.Events.Wire.{EventRow}
use beacn.Store.{Table}
use beacn.Tasks.{Task, is_terminal}

abbrev pub microseconds_per_hour : ℕ
microseconds_per_hour = 3600000000

-- `timedelta(hours=n)`, in microseconds.
unfoldable pub hours : ℤ → ℤ
hours (pos n) = pos (n * microseconds_per_hour)
hours (negsuc n) = negsuc (suc n * microseconds_per_hour - 1)

-- A row of `topics`, as the jobs read and write it.
pub record TopicRow : Type 0 where
  pub environment : String
  pub name : String
  pub retention_hours : Option ℤ
  pub event_count : ℕ
  pub last_event_at : Option Time

-- A row with its time `created_at` or `updated_at`.
pub record Stamped (A : Type 0) : Type 0 where
  pub at : Time
  pub row : A

abbrev pub is_before : Time → Time → Bool
is_before cutoff t = ltb_ℤ t cutoff

abbrev pub is_of : TopicRow → EventRow → Bool
is_of topic row = row.environment == topic.environment && row.topic == topic.name

abbrev pub has_retention : TopicRow → Bool
has_retention topic = elim topic.retention_hours [ none ↦ false | some n ↦ true ]

-- `Event.filter(environment=…, topic=…, published_at__lt=cutoff).delete()` for one configured topic
abbrev pub is_expired_in : Time → TopicRow → EventRow → Bool
is_expired_in now topic row = elim topic.retention_hours [
  | none ↦ false
  | some n ↦ is_of topic row && is_before (now -ℤ hours n) row.published_at
]

unfoldable pub prune_custom : Time → List TopicRow → Table → Table
prune_custom now [] events = events
prune_custom now (topic ∷ topics) events =
    prune_custom now topics (keep (λ row. not (is_expired_in now topic row)) events)

abbrev pub is_custom : List TopicRow → EventRow → Bool
is_custom topics row = any (λ topic. has_retention topic && is_of topic row) topics

-- `PruneEvents.handle`
unfoldable pub prune_events : ℤ → Time → List TopicRow → Table → Table
prune_events default_hours now topics events =
    keep
      (λ row.
        not (is_before (now -ℤ hours default_hours) row.published_at && not (is_custom topics row)))
      (prune_custom now topics events)

-- `sweep_idempotency(now)`, and the other deletions by age alone.
unfoldable pub sweep : {A : Type 0} → ℤ → Time → List (Stamped A) → List (Stamped A)
sweep ttl_hours now rows = keep (λ r. not (is_before (now -ℤ hours ttl_hours) r.at)) rows

-- The tasks of `PruneTasksAndNotifications.handle`
unfoldable pub prune_tasks : ℤ → Time → List (Stamped Task) → List (Stamped Task)
prune_tasks retention_hours now rows =
    keep (λ r. not (is_before (now -ℤ hours retention_hours) r.at && is_terminal r.row.status)) rows

-- A row of `connections`, as `ReapConnections` reads and writes it.
pub record ConnectionRow : Type 0 where
  pub id : String
  pub status : String
  pub connected_at : Time
  pub disconnected_at : Option Time
  pub close_reason : Option String

abbrev pub ended_before : Time → Option Time → Bool
ended_before cutoff none = false
ended_before cutoff (some t) = is_before cutoff t

abbrev pub is_reaped : Time → ConnectionRow → Bool
is_reaped cutoff c = c.status == "closed" && ended_before cutoff c.disconnected_at

abbrev pub close_stale : Time → Time → ConnectionRow → ConnectionRow
close_stale cutoff now c =
    if c.status == "open" && is_before cutoff c.connected_at
    then record c {
      status = "closed";
      close_reason = some "stale (no heartbeat)";
      disconnected_at = some now;
    }
    else c

-- `ReapConnections.handle`; `max_seconds` is `config.connection_max_seconds`.
unfoldable pub reap_connections : ℤ → ℕ → Time → List ConnectionRow → List ConnectionRow
reap_connections retention_hours max_seconds now rows =
    map (close_stale (now -ℤ pos (max_seconds * 2 * 1000000)) now)
      (keep (λ c. not (is_reaped (now -ℤ hours retention_hours) c)) rows)

-- `Count("id")` and `Max("published_at")` of the events of one group.
abbrev pub later_of : Time → Option Time → Time
later_of t none = t
later_of t (some u) = if ltb_ℤ u t then t else u

unfoldable pub latest : List EventRow → Option Time
latest [] = none
latest (row ∷ rows) = some (later_of row.published_at (latest rows))

abbrev pub refreshed : TopicRow → List EventRow → TopicRow
refreshed topic [] = topic
refreshed topic (row ∷ rows) = record topic {
  event_count = length (row ∷ rows);
  last_event_at = latest (row ∷ rows);
}

-- The topics of `RefreshCounters.handle`: a topic with no event has no group, and is not touched.
unfoldable pub refresh_topics : Table → List TopicRow → List TopicRow
refresh_topics events topics = map (λ topic. refreshed topic (keep (is_of topic) events)) topics
