-- ===== src/Jobs/Retention.antt =====
-- What retention keeps.
use beacn.Base.{
  ◌≡◌, refl, ap, sym, ◌∙◌, Bool, true, false, ◌&&◌, ◌||◌, not, List, [], ◌∷◌, Option, none, some,
  arith, keep, All, ◌==◌, eq_iff, Bool-cases, inl, inr, if◌then◌else◌,
}
use beacn.Base.Int.{ℤ, ◌-ℤ◌}
use beacn.Events.Model.{Time}
use beacn.Events.Wire.{EventRow}
use beacn.Store.{Table}
use beacn.Jobs.{
  TopicRow, hours, is_before, is_of, is_expired_in, prune_custom, is_custom, prune_events,
}

-- The retention that goes for an event: its topic's own, where that has one, or else the default.
unfoldable pub retention_of : ℤ → List TopicRow → EventRow → ℤ
retention_of default_hours [] row = default_hours
retention_of default_hours (topic ∷ topics) row =
    let rest = retention_of default_hours topics row in
    elim topic.retention_hours [ none ↦ rest | some n ↦ if is_of topic row then n else rest ]

-- The event is not older than its retention.
unfoldable pub is_retained : ℤ → Time → List TopicRow → EventRow → Bool
unfolding retention_of
is_retained default_hours now topics row =
    not (is_before (now -ℤ hours (retention_of default_hours topics row)) row.published_at)

-- One row to a name in an environment.
abbrev pub AreUnique : List TopicRow → Type 0
AreUnique [] = Unit
AreUnique (topic ∷ topics) =
    All (λ t. (t.environment == topic.environment && t.name == topic.name) ≡ false) topics
    × AreUnique topics

-- No configured topic has let the event expire.
abbrev passes : Time → List TopicRow → EventRow → Bool
passes now [] row = true
passes now (topic ∷ topics) row = not (is_expired_in now topic row) && passes now topics row

keep-keep-and :
    (p q : EventRow → Bool) (rows : Table) → keep p (keep q rows) ≡ keep (λ r. q r && p r) rows
keep-keep-and p q [] = refl
keep-keep-and p q (r ∷ rows) = ground (arith, keep-keep-and p q rows)

keep_ext :
    (p q : EventRow → Bool) (rows : Table)
    → ((r : EventRow) → p r ≡ q r)
    → keep p rows ≡ keep q rows
keep_ext p q [] h = refl
keep_ext p q (r ∷ rows) h = ground (arith, keep_ext p q rows h, h r)

prune_custom-keep :
    (now : Time) (topics : List TopicRow) (events : Table)
    → prune_custom now topics events ≡ keep (passes now topics) events
unfolding prune_custom
prune_custom-keep now [] events = sym (keep_true events)
  where
    keep_true : (rows : Table) → keep (λ r. true) rows ≡ rows
    keep_true [] = refl
    keep_true (r ∷ rows) = ap (λ rs. r ∷ rs) (keep_true rows)
prune_custom-keep now (topic ∷ topics) events =
    prune_custom-keep now topics (keep (λ row. not (is_expired_in now topic row)) events)
    ∙ keep-keep-and (passes now topics) (λ row. not (is_expired_in now topic row)) events

-- An event of one topic is of no topic of another name.
is_of-other :
    (topic t : TopicRow) (row : EventRow)
    → is_of topic row ≡ true
    → (t.environment == topic.environment && t.name == topic.name) ≡ false
    → is_of t row ≡ false
is_of-other topic t row own other = ground (
  arith,
  eq_iff row.environment topic.environment,
  eq_iff row.topic topic.name,
  eq_iff row.environment t.environment,
  eq_iff row.topic t.name,
  eq_iff t.environment topic.environment,
  eq_iff t.name topic.name,
)

is_expired_in-other :
    (now : Time) (t : TopicRow) (row : EventRow)
    → is_of t row ≡ false
    → is_expired_in now t row ≡ false
is_expired_in-other now t row other = go t.retention_hours
  where
    go :
        (r : Option ℤ)
        → (elim r as (λ x. Bool) [
          | none ↦ false
          | some n ↦ is_of t row && is_before (now -ℤ hours n) row.published_at
        ])
          ≡ false
    go none = refl
    go (some n) = rw other refl

others_pass :
    (now : Time) (topic : TopicRow) (topics : List TopicRow) (row : EventRow)
    → is_of topic row ≡ true
    → All (λ t. (t.environment == topic.environment && t.name == topic.name) ≡ false) topics
    → passes now topics row ≡ true
others_pass now topic [] row own others = refl
others_pass now topic (t ∷ topics) row own others =
    rw (is_expired_in-other now t row (is_of-other topic t row own others.0))
      (others_pass now topic topics row own others.1)

passes-is_retained :
    (default_hours : ℤ) (now : Time) (topics : List TopicRow) (row : EventRow)
    → AreUnique topics
    → (passes now topics row
        && not
            (is_before (now -ℤ hours default_hours) row.published_at && not (is_custom topics row)))
      ≡ is_retained default_hours now topics row
unfolding is_retained retention_of
passes-is_retained default_hours now [] row unique = ground arith
passes-is_retained default_hours now (topic ∷ topics) row unique =
    go topic.retention_hours (passes-is_retained default_hours now topics row unique.1)
  where
    go :
        (r : Option ℤ)
        → (passes now topics row
            && not (
                is_before (now -ℤ hours default_hours) row.published_at
                && not (is_custom topics row)))
          ≡ not (is_before (now -ℤ hours (retention_of default_hours topics row)) row.published_at)
        → ((not (elim r as (λ x. Bool) [
          | none ↦ false
          | some n ↦ is_of topic row && is_before (now -ℤ hours n) row.published_at
        ])
              && passes now topics row)
            && not (
                is_before (now -ℤ hours default_hours) row.published_at
                && not (
                    (elim r as (λ x. Bool) [ none ↦ false | some n ↦ true ]) && is_of topic row
                    || is_custom topics row)))
          ≡ not (
              is_before
                (now
                  -ℤ hours (elim r as (λ x. ℤ) [
                    | none ↦ retention_of default_hours topics row
                    | some n ↦ if is_of topic row then n else retention_of default_hours topics row
                  ]))
                row.published_at)
    go none ih = ground (arith, ih)
    go (some n) ih = elim (Bool-cases (is_of topic row)) [
      | inl own ↦ rw (own, others_pass now topic topics row own unique.0) (ground arith)
      | inr other ↦ rw other (ground (arith, ih))
    ]

-- Pruning keeps exactly the events that are not older than the retention of their topic, its own
-- where it has one and the default elsewhere, in their order. A name has one row in an
-- environment.
pub prune_events_lem :
    (default_hours : ℤ) (now : Time) (topics : List TopicRow) (events : Table)
    → AreUnique topics
    → prune_events default_hours now topics events
      ≡ keep (is_retained default_hours now topics) events
unfolding prune_events
prune_events_lem default_hours now topics events unique =
    let expired = λ (row : EventRow).
      not (is_before (now -ℤ hours default_hours) row.published_at && not (is_custom topics row)) in
    ap (keep expired) (prune_custom-keep now topics events)
    ∙ keep-keep-and expired (passes now topics) events
    ∙ keep_ext (λ r. passes now topics r && expired r) (is_retained default_hours now topics) events
        (λ r. passes-is_retained default_hours now topics r unique)
