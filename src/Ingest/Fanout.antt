-- ===== src/Ingest/Fanout.antt =====
-- What an event that is no repeat is published to: its topic, and each target of its topic, one hop.
use beacn.Base.{
  ℕ, ◌+◌, ◌≡◌, refl, ap, ◌∙◌, sym, Bool, true, false, String, List, [], ◌∷◌, ◌++◌, Option, none,
  some, arith, is_empty, eq_refl, find, find-last, append-nil, append_assoc, All, All-keep,
  Bool-cases, Option-cases, inl, inr,
}
use mathlib.Core.List.{map, map-append}
use beacn.Events.Model.{Envelope}
use beacn.Ingest.{
  TopicRow, State, Publication, publication_of, invalidate_topic_cache, is_cached, is_topic,
  is_target, settings_of, is_claim, claim_of, topic_settings, given_key, dedupe, store, observe,
  fan_out_to, deliver, ingest_with, propagate_from, ingest, derived, stop, count,
}

unfoldable pub topic_of : Publication → String
topic_of p = p.topic

-- What a topic is configured to now: its cached settings, or those of its row.
unfoldable pub targets_now : String → String → State → List String
targets_now environment topic s = (topic_settings environment topic s).0.targets

topic_settings-published :
    (environment topic : String) (s : State)
    → (topic_settings environment topic s).1.published ≡ s.published
unfolding topic_settings
topic_settings-published environment topic s =
    elim (Option-cases (find (is_cached environment topic) s.topic_cache)) [
      | inl fresh ↦ rw (fresh, topic_settings) refl
      | inr (entry, cached) ↦ rw (cached, topic_settings) refl
    ]

store-published :
    (persist : Bool) (env : Envelope) (s : State) → (store persist env s).published ≡ s.published
unfolding store
store-published false env s = refl
store-published true env s =
    elim (Bool-cases (topic_settings env.environment env.topic s).0.persist) [
      | inl keeps ↦ rw keeps (topic_settings-published env.environment env.topic s)
      | inr drops ↦ rw drops (topic_settings-published env.environment env.topic s)
    ]

observe-published : (env : Envelope) (s : State) → (observe env s).published ≡ s.published
unfolding observe
observe-published env s = ground arith

deliver-published :
    (persist : Bool) (env : Envelope) (s : State)
    → (deliver persist true env s).published ≡ s.published ++ publication_of env ∷ []
unfolding deliver fan_out_to
deliver-published persist env s =
    ap (λ ps. ps ++ publication_of env ∷ [])
      (observe-published env (store persist env s) ∙ store-published persist env s)

dedupe-published : (env : Envelope) (s : State) → (dedupe env s).1.published ≡ s.published
unfolding dedupe
dedupe-published env s = elim (Bool-cases (is_empty (given_key env.idempotency_key))) [
  | inl bare ↦ rw (bare, dedupe) refl
  | inr named ↦
      elim (Option-cases (
        find (is_claim env.environment env.producer_id (given_key env.idempotency_key))
          s.idempotency)) [
            | inl fresh ↦ rw (named, fresh, dedupe) refl
            | inr (first, known) ↦ rw (named, known, dedupe) refl
          ]
]

module _ (event_id : ℕ → String) where
  -- The copies of an event carry no key, so none is taken for a repeat.
  derived-published :
      (persist : Bool) (env : Envelope) (n : ℕ) (targets : List String) (s : State)
      → (ingest_with stop persist true (derived event_id env n targets) s).1.published
        ≡ s.published ++ map publication_of (derived event_id env n targets)
  unfolding ingest_with derived dedupe
  derived-published persist env n [] s = sym (append-nil s.published)
  derived-published persist env n (t ∷ targets) s =
      let copy = record env { id = event_id n; topic = t; idempotency_key = none } in
      let rest = map publication_of (derived event_id env (n + 1) targets) in
      derived-published persist env (n + 1) targets (deliver persist true copy s)
      ∙ ap (λ ps. ps ++ rest) (deliver-published persist copy s)
      ∙ append_assoc s.published (publication_of copy ∷ []) rest

  derived-topics :
      (env : Envelope) (n : ℕ) (targets : List String)
      → map topic_of (map publication_of (derived event_id env n targets)) ≡ targets
  unfolding derived topic_of
  derived-topics env n [] = refl
  derived-topics env n (t ∷ targets) = ap (λ ts. t ∷ ts) (derived-topics env (n + 1) targets)

settings_of-is_cached :
    (environment topic : String) (row : Option TopicRow)
    → is_cached environment topic (settings_of environment topic row) ≡ true
unfolding settings_of
settings_of-is_cached environment topic none = rw (eq_refl environment, eq_refl topic) refl
settings_of-is_cached environment topic (some row) = rw (eq_refl environment, eq_refl topic) refl

-- The settings that are read again are the same, from the cache that the first reading left.
topic_settings-again :
    (environment topic : String) (s s' : State)
    → s'.topic_cache ≡ (topic_settings environment topic s).1.topic_cache
    → targets_now environment topic s' ≡ targets_now environment topic s
unfolding targets_now topic_settings
topic_settings-again environment topic s s' same =
    let entry = settings_of environment topic (find (is_topic environment topic) s.topics) in
    elim (Option-cases (find (is_cached environment topic) s.topic_cache)) [
      | inl fresh ↦
          let there : find (is_cached environment topic) s'.topic_cache ≡ some entry =
            ap (find (is_cached environment topic)) (rw (fresh, topic_settings) at same)
            ∙ find-last (is_cached environment topic) s.topic_cache entry fresh
                (settings_of-is_cached environment topic _) in
          rw (there, fresh, topic_settings, targets_now) refl
      | inr (known, cached) ↦
          let there : find (is_cached environment topic) s'.topic_cache ≡ some known =
            ap (find (is_cached environment topic)) (rw (cached, topic_settings) at same)
            ∙ cached in
          rw (there, cached, topic_settings, targets_now) refl
    ]

topic_settings-same :
    (environment topic : String) (s s' : State)
    → s'.topic_cache ≡ s.topic_cache
    → s'.topics ≡ s.topics
    → targets_now environment topic s' ≡ targets_now environment topic s
unfolding targets_now topic_settings
topic_settings-same environment topic s s' cache rows =
    elim (Option-cases (find (is_cached environment topic) s.topic_cache)) [
      | inl fresh ↦
          let there = ap (find (is_cached environment topic)) cache ∙ fresh in
          rw (there, fresh, topic_settings, targets_now)
            (ap
              (λ rs. (settings_of environment topic (find (is_topic environment topic) rs)).targets)
              rows)
      | inr (known, cached) ↦
          let there = ap (find (is_cached environment topic)) cache ∙ cached in
          rw (there, cached, topic_settings, targets_now) refl
    ]

deliver-topic_cache :
    (persist fan_out : Bool) (env : Envelope) (s : State)
    → ((deliver persist fan_out env s).topic_cache ≡ (store persist env s).topic_cache)
      × ((deliver persist fan_out env s).topics ≡ (store persist env s).topics)
unfolding deliver fan_out_to observe
deliver-topic_cache persist fan_out env s = (ground arith, ground arith)

store-topic_cache :
    (env : Envelope) (s : State)
    → (store true env s).topic_cache ≡ (topic_settings env.environment env.topic s).1.topic_cache
unfolding store
store-topic_cache env s = elim (Bool-cases (topic_settings env.environment env.topic s).0.persist) [
  | inl keeps ↦ rw keeps refl
  | inr drops ↦ rw drops refl
]

-- Delivering an event changes no targets of its topic.
deliver-targets_now :
    (persist fan_out : Bool) (env : Envelope) (s : State)
    → targets_now env.environment env.topic (deliver persist fan_out env s)
      ≡ targets_now env.environment env.topic s
unfolding store
deliver-targets_now false fan_out env s =
    let (cache, rows) = deliver-topic_cache false fan_out env s in
    topic_settings-same env.environment env.topic s (deliver false fan_out env s) cache rows
deliver-targets_now true fan_out env s =
    topic_settings-again env.environment env.topic s (deliver true fan_out env s)
      ((deliver-topic_cache true fan_out env s).0 ∙ store-topic_cache env s)

dedupe-targets_now :
    (env : Envelope) (s : State)
    → targets_now env.environment env.topic (dedupe env s).1
      ≡ targets_now env.environment env.topic s
unfolding dedupe
dedupe-targets_now env s = elim (Bool-cases (is_empty (given_key env.idempotency_key))) [
  | inl bare ↦ rw (bare, dedupe) refl
  | inr named ↦
      elim (Option-cases (
        find (is_claim env.environment env.producer_id (given_key env.idempotency_key))
          s.idempotency)) [
            | inl fresh ↦
                rw (named, fresh, dedupe)
                  (topic_settings-same env.environment env.topic s
                    (record s {
                      idempotency =
                          s.idempotency ++ claim_of (given_key env.idempotency_key) env ∷ [];
                    })
                    refl refl)
            | inr (first, known) ↦ rw (named, known, dedupe) refl
          ]
]

module _ (event_id : ℕ → String) where
  propagate_from-topics :
      (persist : Bool) (env : Envelope) (s : State)
      → map topic_of (propagate_from event_id persist true env s).published
        ≡ map topic_of s.published ++ targets_now env.environment env.topic s
  unfolding propagate_from targets_now
  propagate_from-topics persist env s =
      let (settings, s') = topic_settings env.environment env.topic s in
      ap (map topic_of) (
        derived-published event_id persist env s'.ids_drawn settings.targets
          (record s' { ids_drawn = s'.ids_drawn + count event_id settings.targets })
        ∙ ap (λ ps. ps ++ map publication_of (derived event_id env s'.ids_drawn settings.targets))
            (topic_settings-published env.environment env.topic s))
      ∙ map-append topic_of s.published
          (map publication_of (derived event_id env s'.ids_drawn settings.targets))
      ∙ ap (λ ts. map topic_of s.published ++ ts)
          (derived-topics event_id env s'.ids_drawn settings.targets)

  -- An event that is no repeat, ingested with fan-out and propagation, is published to its own topic
  -- once, and then once for each entry of its topic's targets, in their order; nothing is expanded
  -- from there, whatever the targets' own lists say.
  pub ingest_one_hop :
      (persist : Bool) (env : Envelope) (s : State)
      → (dedupe env s).0 ≡ none
      → map topic_of (ingest event_id persist true true (env ∷ []) s).1.published
        ≡ map topic_of s.published ++ env.topic ∷ targets_now env.environment env.topic s
  unfolding ingest ingest_with topic_of
  ingest_one_hop persist env s fresh =
      let s1 = (dedupe env s).1 in
      let s2 = deliver persist true env s1 in
      let targets = targets_now env.environment env.topic s in
      rw (fresh, ingest_with)
        (propagate_from-topics persist env s2
          ∙ ap (λ ps. map topic_of ps ++ targets_now env.environment env.topic s2)
              (deliver-published persist env s1
                ∙ ap (λ ps. ps ++ publication_of env ∷ []) (dedupe-published env s))
          ∙ ap (λ ts. map topic_of (s.published ++ publication_of env ∷ []) ++ ts)
              (deliver-targets_now persist true env s1 ∙ dedupe-targets_now env s)
          ∙ ap (λ ts. ts ++ targets) (map-append topic_of s.published (publication_of env ∷ []))
          ∙ append_assoc (map topic_of s.published) (env.topic ∷ []) targets)

-- A topic whose settings are not cached is never propagated to itself or to an empty name, however
-- its list was saved.
pub targets_now_others :
    (environment topic : String) (s : State)
    → All (λ t. is_target topic t ≡ true) (targets_now environment topic (invalidate_topic_cache s))
unfolding targets_now topic_settings invalidate_topic_cache settings_of
targets_now_others environment topic s = others (find (is_topic environment topic) s.topics)
  where
    others :
        (row : Option TopicRow)
        → All (λ t. is_target topic t ≡ true) (settings_of environment topic row).targets
    others none = tt
    others (some row) = All-keep (is_target topic) row.propagate_to
