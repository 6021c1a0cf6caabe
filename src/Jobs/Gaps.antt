-- ===== src/Jobs/Gaps.antt =====
-- Retention and replay together: a topic that retention has emptied.
use beacn.Base.{
  ℕ, ◌≡◌, refl, ap, ◌∙◌, Bool, false, ◌&&◌, String, List, [], ◌∷◌, Option, none, some, arith, keep,
  All, str_ltb,
}
use beacn.Base.Int.{ℤ}
use beacn.Events.Model.{Time}
use beacn.Store.{Table}
use beacn.Paging.Complete.{page_of_short}
use beacn.Store.Order.{ascending}
use beacn.Replay.{replay, of_topic, row_id, replay_limit, is_older}
use beacn.Jobs.{TopicRow, prune_events}
use beacn.Jobs.Retention.{AreUnique, is_retained, prune_events_lem}

-- The topic's events, if it has any, are all past their retention.
abbrev pub AllExpired : ℤ → Time → List TopicRow → String → String → Table → Type 0
AllExpired default_hours now topics environment topic =
    All
      (λ row. (of_topic environment topic row && is_retained default_hours now topics row) ≡ false)

keep-AllExpired :
    (default_hours : ℤ) (now : Time) (topics : List TopicRow) (environment topic : String)
    (events : Table)
    → AllExpired default_hours now topics environment topic events
    → keep (of_topic environment topic) (keep (is_retained default_hours now topics) events) ≡ []
keep-AllExpired default_hours now topics environment topic [] h = refl
keep-AllExpired default_hours now topics environment topic (row ∷ events) h =
    ground (arith, keep-AllExpired default_hours now topics environment topic events h.1, h.0)

-- Where retention has removed every event of a topic, a replay from any cursor reports that nothing
-- was lost: no event, no truncation, and no earliest event. A name has one row in an environment.
pub replay-prune_events :
    (default_hours : ℤ) (now : Time) (topics : List TopicRow) (environment topic : String)
    (events : Table) (max_events : ℕ) (include_meta : Bool) (since : Option String)
    (limit : Option ℕ)
    → AreUnique topics
    → AllExpired default_hours now topics environment topic events
    → replay max_events include_meta environment topic since limit
        (prune_events default_hours now topics events)
      ≡ record { events = []; truncated = false; earliest_available = none; next_since = none }
unfolding replay
replay-prune_events default_hours now topics environment topic events max_events include_meta since
      limit unique gone =
    let pruned : keep (of_topic environment topic) (prune_events default_hours now topics events)
        ≡ [] =
      ap (keep (of_topic environment topic))
        (prune_events_lem default_hours now topics events unique)
      ∙ keep-AllExpired default_hours now topics environment topic events gone in
    let page =
      page_of_short row_id str_ltb ascending (replay_limit max_events limit) [] (omega arith) in
    rw (pruned, page, not_older since) refl
  where
    not_older : (o : Option String) → is_older o none ≡ false
    not_older none = refl
    not_older (some c) = refl
