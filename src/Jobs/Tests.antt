-- ===== src/Jobs/Tests.antt =====
-- A topic that keeps its events for an hour, and one that keeps them for a day.
use beacn.Base.{◌≡◌, refl, false, String, List, [], ◌∷◌, none, some, keep}
use beacn.Base.Int.{ℤ, pos, ◌-ℤ◌}
use beacn.Events.Wire.{EventRow}
use beacn.Store.{Table}
use beacn.Store.Tests.{row_of}
use beacn.Jobs.{
  TopicRow, hours, prune_custom, prune_events, reap_connections, refresh_topics, latest,
}
use beacn.Jobs.Retention.{retention_of, is_retained, prune_events_lem}

abbrev at_hour : String → String → ℤ → EventRow
at_hour id topic t = record (row_of id topic) { published_at = t }

abbrev configured : List TopicRow
configured =
    record {
      environment = "production";
      name = "orders";
      retention_hours = some (pos 1);
      event_count = 3;
      last_event_at = none;
    }
    ∷ []

-- Two hours in.
abbrev stored : Table
stored = at_hour "evt_1" "orders" (pos 0) ∷ at_hour "evt_2" "tasks" (pos 0) ∷ []

evaluation : Unit {0}
unfolding hours prune_custom prune_events ◌-ℤ◌ refresh_topics latest reap_connections
evaluation = tt

pruned :
    prune_events (pos 24) (pos 7200000000) configured stored ≡ at_hour "evt_2" "tasks" (pos 0) ∷ []
unfolding evaluation
pruned = refl

-- A counter of a topic that has lost its events stays as it was.
stale : refresh_topics [] configured ≡ configured
unfolding evaluation
stale = refl

prune_events_lem_example :
    prune_events (pos 24) (pos 7200000000) configured stored
    ≡ keep (is_retained (pos 24) (pos 7200000000) configured) stored
prune_events_lem_example = prune_events_lem (pos 24) (pos 7200000000) configured stored (tt, tt)

expired_order :
    is_retained (pos 24) (pos 7200000000) configured (at_hour "evt_1" "orders" (pos 0)) ≡ false
unfolding evaluation is_retained retention_of
expired_order = refl
