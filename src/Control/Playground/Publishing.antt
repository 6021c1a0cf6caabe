-- ===== src/Control/Playground/Publishing.antt =====
-- An event that an operator publishes as a producer, beside one that the producer publishes.
use beacn.Base.{
  ℕ, ◌+◌, ◌≡◌, refl, ◌∙◌, sym, true, String, List, [], ◌∷◌, none, some, find, find-passes, inl, inr,
  ◌⊎◌, eq_iff, and-eq-true, ◌==◌,
}
use beacn.Base.Strip.{strip}
use beacn.Base.Json.{Json, Fields, obj}
use beacn.Events.Repeats.{ingest-idempotency_key}
use beacn.Errors.{Failure, Result, ok, err, bind-eq-ok, ok-injective}
use beacn.Events as Events
use beacn.Events.Model.{Time, Envelope, Python}
use beacn.Events.Validation.{FromServer, IsValid, ingest-FromServer, ingest-IsValid}
use beacn.Ingest as Ingest
use beacn.Ingest.{IngestResult}
use beacn.Auth.{ApiKey, Producer}
use beacn.Api.Publish.{producer_context}
use beacn.Control.Playground.{
  home, event_object, is_producer, playground_producer, playground_context, playground_envelope,
  playground_publish,
}
use beacn.Control.Playground.Refusing.{
  playground_producer-find, Refusal, playground_envelope-Refusal,
}

is_producer-asked :
    (environment id : String) (p : Producer)
    → is_producer environment id p ≡ true
    → (p.id ≡ id) × (p.environment ≡ environment)
is_producer-asked environment id p h =
    let both = and-eq-true (p.id == id) (p.environment == environment) h in
    ((eq_iff p.id id).0 both.0, (eq_iff p.environment environment).0 both.1)

-- What an operator publishes: a valid event of the producer that is found for the id and the
-- environment that were asked for, which goes through the ingestion like any other.
pub record Published (py : Python) (event_id : ℕ → String) (environment producer_id : String)
    (producers : List Producer) (now : Time) (s : Ingest.State)
    (result : Result IngestResult × Ingest.State) : Type 0 where
  pub producer : Producer
  pub env : Envelope
  pub is_found : find (is_producer (home environment) (strip producer_id)) producers ≡ some producer
  pub is_asked : (producer.id ≡ strip producer_id) × (producer.environment ≡ home environment)
  pub is_valid : IsValid py env
  pub is_from :
      FromServer
        (record {
          producer = producer.name;
          producer_id = some producer.id;
          environment = home environment;
          api_key_id = none;
        })
        now
        (event_id s.ids_drawn)
        env
  pub is_ingested :
      let ingested =
        Ingest.ingest event_id true true true
          (env ∷ [])
          (record s { ids_drawn = s.ids_drawn + 1 }) in
      result ≡ (ok ingested.0, ingested.1)

-- What the playground publishes is a valid event, whatever its body says, with the name and the id of
-- the row that is found for the producer that was asked for, of the environment that was asked for,
-- and no key; and the answer and the state are those of ingesting the event. Where it does not
-- publish, it answers with an error and the state is as it was: no producer is named, or none of that
-- id and environment is found, or the body holds no object, or the error is that of ingesting the
-- body as an event of that producer.
pub playground_publish-Published :
    (py : Python) (event_id : ℕ → String) (environment producer_id : String) (body : Json)
    (producers : List Producer) (now : Time) (s : Ingest.State)
    → Published py event_id environment producer_id producers now s
        (playground_publish py event_id environment producer_id body producers now s)
      ⊎ ((e : Failure) × (playground_publish py event_id environment producer_id body producers now
              s
            ≡ (err e, s))
          × Refusal py environment producer_id body producers now (event_id s.ids_drawn) e)
unfolding playground_publish playground_envelope playground_context
playground_publish-Published py event_id environment producer_id body producers now s =
    go (playground_envelope py event_id environment producer_id body producers now s.ids_drawn) refl
  where
    ended : Result Envelope → Result IngestResult × Ingest.State
    ended m = elim m [
      | err e ↦ (err e, s)
      | ok env ↦
          let (result, s') =
            Ingest.ingest event_id true true true (env ∷ [])
              (record s { ids_drawn = s.ids_drawn + 1 }) in
          (ok result, s')
    ]

    go :
        (m : Result Envelope)
        → playground_envelope py event_id environment producer_id body producers now s.ids_drawn ≡ m
        → Published py event_id environment producer_id producers now s (ended m)
          ⊎ ((e : Failure) × (ended m ≡ (err e, s))
              × Refusal py environment producer_id body producers now (event_id s.ids_drawn) e)
    go (err e) h = inr (
      e,
      refl,
      playground_envelope-Refusal py event_id environment producer_id body producers now s.ids_drawn
          e h,
    )
    go (ok env) h =
        let (p, found, h1) =
          bind-eq-ok (playground_producer environment producer_id producers) _ h in
        let (event, _, read) = bind-eq-ok (event_object body) _ h1 in
        let row = playground_producer-find environment producer_id producers p found in
        inl (record {
          producer = p;
          env = env;
          is_found = row;
          is_asked =
              is_producer-asked (home environment) (strip producer_id) p
                (find-passes _ producers p row);
          is_valid = ingest-IsValid py event (playground_context environment p) now _ env read;
          is_from = ingest-FromServer py event (playground_context environment p) now _ env read;
          is_ingested = refl;
        })

-- An event that an operator publishes as a producer of its environment is told from the same event
-- published with a key of that producer by the producer's name alone: the one bears the producer's
-- name, the other its slug. Both have the producer's id and environment and the same idempotency key,
-- so either is a repeat of the other.
pub playground-producer :
    (py : Python) (environment : String) (p : Producer) (key : ApiKey) (body : Fields)
    (t1 t2 : Time) (id1 id2 : String) (env own : Envelope)
    → home environment ≡ p.environment
    → Events.ingest py (obj body) (playground_context environment p) t1 id1 ≡ ok env
    → Events.ingest py (obj body) (producer_context key p) t2 id2 ≡ ok own
    → (env.producer ≡ p.name)
      × (own.producer ≡ p.slug)
      × (env.producer_id ≡ own.producer_id)
      × (env.environment ≡ own.environment)
      × (env.idempotency_key ≡ own.idempotency_key)
unfolding playground_context producer_context
playground-producer py environment p key body t1 t2 id1 id2 env own near read1 read2 =
    let a = ingest-FromServer py (obj body) (playground_context environment p) t1 id1 env read1 in
    let b = ingest-FromServer py (obj body) (producer_context key p) t2 id2 own read2 in
    (
      a.producer_eq,
      b.producer_eq,
      a.producer_id_eq ∙ sym b.producer_id_eq,
      a.environment_eq ∙ near ∙ sym b.environment_eq,
      ok-injective (
          sym (ingest-idempotency_key py body (playground_context environment p) t1 id1 env read1)
          ∙ ingest-idempotency_key py body (producer_context key p) t2 id2 own read2),
    )
