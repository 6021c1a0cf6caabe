-- ===== src/Control/Topics/Effect.antt =====
-- From the control plane to the stream: what a saved list of targets does to the events that come next.
use Prim.Native.String
use beacn.Base.{
  ℕ, ◌≡◌, refl, ap, ap₂, sym, subst, ◌∙◌, Bool, true, false, String, List, [], ◌∷◌, ◌++◌, map,
  Option, none, some, or_default, arith, is_empty, find, keep, All, and-eq-true, Bool-cases, inl,
  inr, ◌==◌, eq_iff, eq_refl,
}
use beacn.Base.Strip.{strip}
use beacn.Base.Json.{str}
use beacn.Errors.{ok, bind-eq-ok, ok-injective}
use beacn.Events.{is_valid_topic_name}
use beacn.Events.Names.{matches_topic}
use beacn.Events.Model.{Envelope}
use beacn.Ingest as Ingest
use beacn.Ingest.{
  is_topic, is_target, settings_of, topic_settings, invalidate_topic_cache, dedupe, ingest,
}
use beacn.Ingest.Fanout.{topic_of, targets_now, ingest_one_hop}
use beacn.Control.Topics.{
  TopicConfig, TopicForm, targets_of, is_config, new_topic, configured, save, read_row, with_topics,
  environment_of, row_of, topics_upsert,
}
use beacn.Control.Topics.Targets.{IsTarget, targets_of-IsSound}

find-save :
    (row : TopicConfig) (rows : List TopicConfig)
    → find (is_topic row.environment row.name) (map read_row (save row rows)) ≡ some (read_row row)
unfolding save
find-save row [] = rw (eq_refl row.environment, eq_refl row.name) refl
find-save row (r ∷ rows) = elim (Bool-cases (is_config row.environment row.name r)) [
  | inl own ↦ rw (own, eq_refl row.environment, eq_refl row.name) refl
  | inr other ↦ rw (other, other) (find-save row rows)
]

valid-named : (t : String) → is_valid_topic_name (str t) ≡ true → is_empty t ≡ false
unfolding is_valid_topic_name matches_topic
valid-named Prim.Native.String.[] h = absurd (cc)
valid-named (Prim.Native.String.◌∷◌ c t) h = refl

is_target-IsTarget : (name t : String) → IsTarget name t → is_target name t ≡ true
unfolding IsTarget
is_target-IsTarget name t h = rw (valid-named t h.0, h.1) refl

keep-IsTarget :
    (name : String) (ts : List String) → All (IsTarget name) ts → keep (is_target name) ts ≡ ts
keep-IsTarget name [] h = refl
keep-IsTarget name (t ∷ ts) h =
    rw (is_target-IsTarget name t h.0) (ap (λ us. t ∷ us) (keep-IsTarget name ts h.1))

-- What the settings of a topic are once it is saved.
targets_now-save :
    (row : TopicConfig) (rows : List TopicConfig) (s : Ingest.State)
    → All (IsTarget row.name) row.propagate_to
    → targets_now row.environment row.name (invalidate_topic_cache (with_topics (save row rows) s))
      ≡ row.propagate_to
unfolding targets_now topic_settings invalidate_topic_cache settings_of
targets_now-save row rows s h =
    ap (λ o. (settings_of row.environment row.name o).targets) (find-save row rows)
    ∙ keep-IsTarget row.name row.propagate_to h

find-holds :
    (p : TopicConfig → Bool) (rows : List TopicConfig) (row : TopicConfig)
    → find p rows ≡ some row
    → p row ≡ true
find-holds p [] row h = absurd (cc)
find-holds p (r ∷ rows) row h = elim (Bool-cases (p r)) [
  | inl own ↦
      let here : some r ≡ some row = rw own at h in let same : r ≡ row = cc in ap p (sym same) ∙ own
  | inr other ↦ find-holds p rows row (rw other at h)
]

-- The row that is saved is the one of the environment and the name of the body.
base-key :
    (id environment name : String) (o : Option TopicConfig)
    → ((row : TopicConfig) → o ≡ some row → is_config environment name row ≡ true)
    → ((or_default o (new_topic id environment name)).environment ≡ environment)
      × ((or_default o (new_topic id environment name)).name ≡ name)
base-key id environment name none old = (refl, refl)
base-key id environment name (some row) old =
    let (home, named) =
      and-eq-true (row.environment == environment) (row.name == name) (old row refl) in
    ((eq_iff row.environment environment).0 home, (eq_iff row.name name).0 named)

row_of-key :
    (id : String) (form : TopicForm) (targets : Option (List String)) (rows : List TopicConfig)
    → ((row_of id form targets rows).environment ≡ environment_of form)
      × ((row_of id form targets rows).name ≡ strip form.name)
unfolding configured
row_of-key id form targets rows =
    base-key id (environment_of form) (strip form.name)
      (find (is_config (environment_of form) (strip form.name)) rows)
      (find-holds (is_config (environment_of form) (strip form.name)) rows)

saved-targets :
    (id : String) (form : TopicForm) (targets : List String) (rows : List TopicConfig)
    (s : Ingest.State)
    → targets_of (strip form.name) form.propagate_to ≡ ok (some targets)
    → targets_now
        (environment_of form)
        (strip form.name)
        (invalidate_topic_cache (with_topics (save (row_of id form (some targets) rows) rows) s))
      ≡ targets
unfolding configured
saved-targets id form targets rows s given =
    let row = row_of id form (some targets) rows in
    let (home, named) = row_of-key id form (some targets) rows in
    let sound = targets_of-IsSound (strip form.name) form.propagate_to targets given in
    ap₂ (λ e n. targets_now e n (invalidate_topic_cache (with_topics (save row rows) s))) (sym home)
      (sym named)
    ∙ targets_now-save row rows s (subst (λ n. All (IsTarget n) targets) (sym named) sound.each)

-- An event that is ingested after a topic was saved with a list of targets, and is no repeat, is
-- published to its own topic and then to exactly the targets of the list, in their order, whatever the
-- process had cached for the topic before.
pub topics_upsert-ingest :
    (event_id : ℕ → String) (id : String) (form : TopicForm) (rows : List TopicConfig)
    (s : Ingest.State) (created : Bool) (rows' : List TopicConfig) (s' : Ingest.State)
    (targets : List String) (env : Envelope)
    → topics_upsert id form (rows, s) ≡ ok (created, (rows', s'))
    → targets_of (strip form.name) form.propagate_to ≡ ok (some targets)
    → env.environment ≡ environment_of form
    → env.topic ≡ strip form.name
    → (dedupe env s').0 ≡ none
    → map topic_of (ingest event_id true true true (env ∷ []) s').1.published
      ≡ map topic_of s.published ++ strip form.name ∷ targets
unfolding topics_upsert invalidate_topic_cache
topics_upsert-ingest event_id id form rows s created rows' s' targets env h given home named fresh =
    elim (Bool-cases (is_empty (strip form.name))) [
      | inl nameless ↦ absurd (ground (arith, h, nameless))
      | inr full ↦
          let (found, checked, made) =
            bind-eq-ok (targets_of (strip form.name) form.propagate_to) _ (rw full at h) in
          let saved : invalidate_topic_cache (with_topics (save (row_of id form found rows) rows) s)
              ≡ s' =
            ap (λ r. r.1.1) (ok-injective made) in
          let known : found ≡ some targets = ok-injective (sym checked ∙ given) in
          let now : targets_now env.environment env.topic s' ≡ targets =
            ap₂ (λ e n. targets_now e n s') home named
            ∙ ap (targets_now (environment_of form) (strip form.name)) (
                sym saved
                ∙ ap
                    (λ f.
                      invalidate_topic_cache (with_topics (save (row_of id form f rows) rows) s))
                    known)
            ∙ saved-targets id form targets rows s given in
          ingest_one_hop event_id true env s' fresh
          ∙ ap₂ (λ (ps : List Ingest.Publication) (ts : List String). map topic_of ps ++ ts)
              (ap (λ q. q.published) (sym saved)) (ap₂ (λ t ts. t ∷ ts) named now)
    ]
