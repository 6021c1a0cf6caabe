-- ===== src/Replay.antt =====
-- app/services/replay.py: what a consumer that was away reads back from the store.
pub mod Complete
pub mod Tests
use beacn.Base.{
  ℕ, zero, suc, min, Bool, true, false, ◌&&◌, ◌||◌, not, String, List, [], ◌∷◌, ◌++◌, Option, none,
  some, or_default, is_empty, str_ltb, ◌==◌, keep, head?, if◌then◌else◌,
}
use mathlib.Core.List.{map}
use beacn.Events.Wire.{EventRow, Wire, stored_wire}
use beacn.Store.{Table}
use beacn.Paging.{Page, page_of, behind}

pub record ReplayResult : Type 0 where
  pub events : List Wire
  pub truncated : Bool
  pub earliest_available : Option String
  pub next_since : Option String

abbrev pub row_id : EventRow → String
row_id row = row.id

-- `min(config.replay_max_events, limit or config.replay_max_events)`
unfoldable pub replay_limit : ℕ → Option ℕ → ℕ
replay_limit max_events none = max_events
replay_limit max_events (some zero) = max_events
replay_limit max_events (some (suc n)) = min max_events (suc n)

-- `Event.filter(environment=environment, topic=topic)`
abbrev pub of_topic : String → String → EventRow → Bool
of_topic environment topic row = row.environment == environment && row.topic == topic

abbrev pub id_of : Option EventRow → Option String
id_of none = none
id_of (some row) = some row.id

-- `since and earliest_available and since < earliest_available`
abbrev pub is_older : Option String → Option String → Bool
is_older none earliest = false
is_older (some since) none = false
is_older (some since) (some earliest) =
    not (is_empty since) && not (is_empty earliest) && str_ltb since earliest

-- The store is the table of events in the order of its ids.
unfoldable pub replay :
    ℕ
    → Bool
    → (environment topic : String) → (since : Option String) → (limit : Option ℕ) → Table
    → ReplayResult
replay max_events include_meta environment topic since limit events =
    let base = keep (of_topic environment topic) events in
    let earliest = id_of (head? base) in
    let page =
      page_of row_id (replay_limit max_events limit) (keep (behind row_id str_ltb since) base) in
    record {
      events = map (stored_wire include_meta) page.items;
      truncated = is_older since earliest || page.has_more;
      earliest_available = earliest;
      next_since = page.next_cursor;
    }

-- A consumer that asks again with `next_since` until there is none.
unfoldable pub catch_up :
    ℕ → ℕ → Bool → String → String → Option String → Option ℕ → Table → List Wire
catch_up zero max_events include_meta environment topic since limit events = []
catch_up (suc fuel) max_events include_meta environment topic since limit events =
    let result = replay max_events include_meta environment topic since limit events in
    result.events ++ elim result.next_since [
      | none ↦ []
      | some c ↦ catch_up fuel max_events include_meta environment topic (some c) limit events
    ]
