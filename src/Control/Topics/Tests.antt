-- ===== src/Control/Topics/Tests.antt =====
-- A topic that is configured twice, and the event that follows.
use beacn.Base.{◌≡◌, refl, true, [], ◌∷◌, ◌++◌, map, none, some}
use beacn.Base.Int.{pos}
use beacn.Base.Strip.{strip}
use beacn.Base.Json.{null, str, num, arr, cons, nil}
use beacn.Errors.{ok, invalid}
use beacn.Events.{is_valid_topic_name}
use beacn.Events.Names.{matches_topic}
use beacn.Ingest as Ingest
use beacn.Ingest.{invalidate_topic_cache, dedupe, ingest}
use beacn.Ingest.Fanout.{topic_of}
use beacn.Ingest.Tests.{started, drawn, paid}
use beacn.Control.Topics.{
  TopicConfig, TopicForm, targets_of, collect_targets, configured, save, new_topic, topics_upsert,
}
use beacn.Control.Topics.Targets.{AreSound}
use beacn.Control.Topics.Effect.{topics_upsert-ingest}

abbrev form : TopicForm
form = record {
  name = " orders ";
  environment = "production";
  visibility = none;
  description = none;
  persist = some true;
  retention_hours = some none;
  propagate_to = some (
      arr (
        cons (str "billing") (
          cons (num (pos 3) 0)
            (cons (str "orders") (cons (str " ledger ") (cons (str "billing") nil))))));
}

run : Unit {0}
unfolding topics_upsert targets_of collect_targets configured save strip is_valid_topic_name
    matches_topic invalidate_topic_cache dedupe
run = tt

targets_run : targets_of "orders" form.propagate_to ≡ ok (some ("billing" ∷ "ledger" ∷ []))
unfolding run
targets_run = refl

refusals :
    (targets_of "orders" (some (str "billing"))
      ≡ invalid "propagate_to must be a list of topic names")
    × (targets_of "orders" (some (arr (cons (str "a b") nil))) ≡ invalid "not a valid topic name")
    × (targets_of "orders" (some null) ≡ ok (some []))
unfolding run
refusals = (refl, refl, refl)

no_topics : AreSound []
unfolding AreSound
no_topics = tt

abbrev orders : TopicConfig
orders = record (new_topic "t1" "production" "orders") { propagate_to = "billing" ∷ "ledger" ∷ [] }

abbrev configured_state : Ingest.State
configured_state = record started {
  topics =
      record {
        environment = "production";
        name = "orders";
        persist = true;
        propagate_to = "billing" ∷ "ledger" ∷ [];
      }
      ∷ [];
  topic_cache = [];
}

upsert_run : topics_upsert "t1" form ([], started) ≡ ok (true, (orders ∷ [], configured_state))
unfolding run
upsert_run = refl

unclaimed : (dedupe (paid "evt_5" none) configured_state).0 ≡ none
unfolding run
unclaimed = refl

topics_upsert-ingest_example :
    map topic_of (ingest drawn true true true (paid "evt_5" none ∷ []) configured_state).1.published
    ≡ map topic_of started.published ++ "orders" ∷ "billing" ∷ "ledger" ∷ []
unfolding strip
topics_upsert-ingest_example =
    topics_upsert-ingest drawn "t1" form [] started true (orders ∷ []) configured_state
      ("billing" ∷ "ledger" ∷ []) (paid "evt_5" none) upsert_run targets_run refl refl unclaimed
