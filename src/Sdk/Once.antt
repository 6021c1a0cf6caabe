-- ===== src/Sdk/Once.antt =====
-- A publication with an idempotency key that is tried again is ingested once.
use beacn.Base.{
  ℕ, ◌+◌, ◌≡◌, ◌≢◌, refl, ap, sym, ◌∙◌, ◌⊎◌, inl, inr, Bool, true, false, String, [], ◌∷◌, some,
  is_empty,
}
use beacn.Base.Json.{Json, Fields, obj, get}
use beacn.Errors.{beacn_error, uncaught, Result, ok, err, ◌>>=◌, ok-injective}
use beacn.RateLimit.{Limiter, Outcome, admitted, limited, check}
use beacn.Events.{text_at, ingest}
use beacn.Events.Model.{Time, Envelope, Python}
use beacn.Events.Validation.{ingest-FromServer, clean_str-IsClean}
use beacn.Events.Repeats.{ingest-idempotency_key}
use beacn.Ingest as Ingest
use beacn.Ingest.{EventIdempotency, given_key, repeat_of, id_of_accepted}
use beacn.Ingest.Claims.{answer, ingest-answer, ingest-known}
use beacn.Auth.{ApiKey, Producer}
use beacn.Api.{HttpRequest, Response, Answer, error_response, answer_of}
use beacn.Api.Publish.{
  State, Collected, add_envelope, add_error, Published, collect, store_batch, answer_batch,
  admitted_batch, limited_batch, batch_of, publish_events, producer_context, rate_error,
}
use beacn.Sdk.{RetryPolicy, success, request}
use beacn.Sdk.Network.{
  Fate, lost_request, lost_answer, delivered, Network, reply_of, served, over, over_network,
}
use beacn.Sdk.Keeps.{Leaves, request-Leaves}

module _ (py : Python) (event_id : ℕ → String) (ticks max_request_bytes : ℕ) (key : ApiKey)
    (producer : Producer) (request_sent : HttpRequest) (net : Network) where
  module _ (body : Fields) (k : String) (start : State) where
    -- The store after the event was ingested one time.
    abbrev pub ingested : Envelope → Ingest.State
    ingested env =
        (Ingest.ingest event_id true true true (env ∷ [])
          (record start.store { ids_drawn = start.store.ids_drawn + 1 })).1

    -- The store is that of ingesting the event of the body, once, but for the ids that were drawn.
    pub record IsOnce (s : State) : Type 0 where
      pub read_at : Time
      pub env : Envelope
      pub from_body :
          ingest py
            (obj body)
            (producer_context key producer)
            read_at
            (event_id start.store.ids_drawn)
          ≡ ok env
      pub drawn : ℕ
      pub store_eq : s.store ≡ record (ingested env) { ids_drawn = drawn }

    abbrev pub AtMostOnce : State → Type 0
    AtMostOnce s = (s.store ≡ start.store) ⊎ IsOnce s

  -- What a request does to the service: nothing, and then it is not answered with success, or its event
  -- is ingested.
  pub data Step (body : Fields) (n : ℕ) (s : State) (after : Answer Published × State)
      : Type 0 where
    nothing :
        after.1.store ≡ s.store
        → ((v : Json) → reply_of net after.0 ≢ success v)
        → Step body n s after
    ingests :
        (env : Envelope)
        → ingest py
            (obj body)
            (producer_context key producer)
            (net.now n)
            (event_id s.store.ids_drawn)
          ≡ ok env
        → after.1.store
          ≡ (Ingest.ingest event_id true true true
              (env ∷ [])
              (record s.store { ids_drawn = s.store.ids_drawn + 1 })).1
        → Step body n s after

  admitted_batch-Step :
      (body : Fields) (n : ℕ) (s : State) (l : Limiter)
      → Step body n s (
          answer_of (
            admitted_batch py event_id ticks max_request_bytes key producer
              (net.now n)
              (obj body ∷ [])
              (record s { limiter = l })))
  unfolding admitted_batch collect
  admitted_batch-Step body n s l =
      go
        (ingest py (obj body) (producer_context key producer) (net.now n)
          (event_id s.store.ids_drawn))
        refl
    where
      go :
          (r : Result Envelope)
          → ingest py
              (obj body)
              (producer_context key producer)
              (net.now n)
              (event_id s.store.ids_drawn)
            ≡ r
          → Step body n s (
              answer_of
                (elim (elim r as (λ x. Result Collected) [
                  | ok env ↦
                      ok (record { envelopes = []; errors = []; ids_drawn = s.store.ids_drawn + 1 })
                      >>= λ c. ok (add_envelope env c)
                  | err (beacn_error e) ↦
                      ok (record { envelopes = []; errors = []; ids_drawn = s.store.ids_drawn })
                      >>= λ c. ok (add_error 0 e c)
                  | err uncaught ↦ err uncaught
                ])
                  as (λ x. Result (Response Published) × State) [
                    | ok c ↦
                        answer_batch py event_id ticks max_request_bytes producer
                          (net.now n)
                          c
                          (record s { limiter = l })
                    | err e ↦ (err e, record s { limiter = l })
                  ]))
      go (ok env) e = unfold answer_batch store_batch in ingests env e refl
      go (err (beacn_error f)) e = unfold answer_batch in nothing refl (λ v h. cc)
      go (err uncaught) e = nothing refl (λ v h. cc)

  served-Step :
      (body : Fields) (n : ℕ) (s : State)
      → batch_of py event_id ticks max_request_bytes request_sent ≡ ok (obj body ∷ [])
      → Step body n s
          ((served py event_id ticks max_request_bytes key producer request_sent net) n s)
  unfolding publish_events limited_batch
  served-Step body n s batch =
      rw (batch, publish_events) (go (check ticks s.limiter key.prefix 1 (net.clock n)))
    where
      go :
          (d : Limiter × Outcome)
          → Step body n s (
              answer_of (elim d.1 as (λ x. Result (Response Published) × State) [
                | admitted ↦
                    admitted_batch py event_id ticks max_request_bytes key producer
                      (net.now n)
                      (obj body ∷ [])
                      (record s { limiter = d.0 })
                | limited after ↦ (
                  err (beacn_error (rate_error py event_id ticks max_request_bytes after)),
                  record s { limiter = d.0 },
                )
              ]))
      go (l, admitted) = admitted_batch-Step body n s l
      go (l, limited after) = unfold error_response in nothing refl (λ v h. cc)

  -- The claim of the event that was ingested answers for its key.
  module _ (body : Fields) (k : String) (start : State)
      (named : text_at body "idempotency_key" ≡ ok (some k)) where
    has_key :
        (t : Time) (id : String) (env : Envelope)
        → ingest py (obj body) (producer_context key producer) t id ≡ ok env
        → env.idempotency_key ≡ some k
    has_key t id env e = sym (
        ok-injective
          (sym named ∙ ingest-idempotency_key py body (producer_context key producer) t id env e))

    key_is_given :
        (env : Envelope)
        → env.idempotency_key ≡ some k
        → is_empty (given_key env.idempotency_key) ≡ false
    key_is_given env e =
        ap (λ o. is_empty (given_key o)) e
        ∙ (clean_str-IsClean (get body "idempotency_key") "idempotency_key" 200 false (some k)
            (unfold text_at in named)).0

    -- The claim of the event that was ingested answers for every event of the body.
    claimed :
        (s : State) (env : Envelope)
        → (once : IsOnce body k start s) → (t : Time) (id : String)
        → ingest py (obj body) (producer_context key producer) t id ≡ ok env
        → (r : EventIdempotency) × (answer env.environment env.producer_id
              (given_key env.idempotency_key)
              s.store
            ≡ some r)
    unfolding answer
    claimed s env once t id e =
        let keyed = has_key once.read_at _ once.env once.from_body in
        let (r, (found, _)) =
          ingest-answer event_id true true true once.env
            (record start.store { ids_drawn = start.store.ids_drawn + 1 })
            (key_is_given once.env keyed) in
        let first =
          ingest-FromServer py (obj body) (producer_context key producer) once.read_at _ once.env
            once.from_body in
        let this = ingest-FromServer py (obj body) (producer_context key producer) t id env e in
        let same_environment = this.environment_eq ∙ sym first.environment_eq in
        let same_producer = this.producer_id_eq ∙ sym first.producer_id_eq in
        let same_key = ap given_key (has_key t id env e ∙ sym keyed) in
        (
          r,
          ap (λ x. answer x env.producer_id (given_key env.idempotency_key) s.store)
                same_environment
              ∙ ap (λ x. answer once.env.environment x (given_key env.idempotency_key) s.store)
                  same_producer
              ∙ ap (λ x. answer once.env.environment once.env.producer_id x s.store) same_key
              ∙ ap
                  (answer once.env.environment once.env.producer_id
                    (given_key once.env.idempotency_key))
                  once.store_eq
              ∙ found,
        )

    again-IsOnce :
        (s : State) (after : Answer Published × State) (n : ℕ) (env : Envelope)
        → IsOnce body k start s
        → ingest py
            (obj body)
            (producer_context key producer)
            (net.now n)
            (event_id s.store.ids_drawn)
          ≡ ok env
        → after.1.store
          ≡ (Ingest.ingest event_id true true true
              (env ∷ [])
              (record s.store { ids_drawn = s.store.ids_drawn + 1 })).1
        → IsOnce body k start after.1
    unfolding answer
    again-IsOnce s after n env once e stored =
        let next = record s.store { ids_drawn = s.store.ids_drawn + 1 } in
        let (r, known) = claimed s env once (net.now n) (event_id s.store.ids_drawn) e in
        record {
          read_at = once.read_at;
          env = once.env;
          from_body = once.from_body;
          drawn = s.store.ids_drawn + 1;
          store_eq =
              stored
              ∙ ap (λ p. p.1)
                  (ingest-known event_id true true true env next r
                    (key_is_given env (has_key (net.now n) (event_id s.store.ids_drawn) env e))
                    known)
              ∙ ap (λ (st : Ingest.State). record st { ids_drawn = s.store.ids_drawn + 1 })
                  once.store_eq;
        }

    module _
        (batch : batch_of py event_id ticks max_request_bytes request_sent
          ≡ ok (obj body ∷ [])) where
      served-AtMostOnce :
          (n : ℕ) (s : State)
          → AtMostOnce body k start s
          → AtMostOnce body k start
              ((served py event_id ticks max_request_bytes key producer request_sent net) n s).1
            × ((v : Json)
                → reply_of net
                    ((served py event_id ticks max_request_bytes key producer request_sent net) n
                      s).0
                  ≡ success v
                → IsOnce body k start
                    ((served py event_id ticks max_request_bytes key producer request_sent net) n
                      s).1)
      served-AtMostOnce n s phase =
          go ((served py event_id ticks max_request_bytes key producer request_sent net) n s)
            (served-Step body n s batch) phase
        where
          go :
              (after : Answer Published × State)
              → Step body n s after
              → AtMostOnce body k start s
              → AtMostOnce body k start after.1
                × ((v : Json) → reply_of net after.0 ≡ success v → IsOnce body k start after.1)
          go after (nothing same refused) (inl fresh) =
              (inl (same ∙ fresh), λ v h. absurd (refused v h))
          go after (nothing same refused) (inr once) = (
            inr (record {
              read_at = once.read_at;
              env = once.env;
              from_body = once.from_body;
              drawn = once.drawn;
              store_eq = same ∙ once.store_eq;
            }),
            λ v h. absurd (refused v h),
          )
          go after (ingests env e stored) (inl fresh) =
              let first : IsOnce body k start after.1 = record {
                read_at = net.now n;
                env = env;
                from_body =
                    ap
                      (λ (st : Ingest.State).
                        ingest py (obj body) (producer_context key producer) (net.now n)
                          (event_id st.ids_drawn))
                      (sym fresh)
                    ∙ e;
                drawn = (ingested body k start env).ids_drawn;
                store_eq =
                    stored
                    ∙ ap
                        (λ (st : Ingest.State).
                          (Ingest.ingest event_id true true true (env ∷ [])
                            (record st { ids_drawn = st.ids_drawn + 1 })).1)
                        fresh;
              } in
              (inr first, λ v h. first)
          go after (ingests env e stored) (inr once) =
              let kept = again-IsOnce s after n env once e stored in (inr kept, λ v h. kept)

      over-AtMostOnce :
          (fate : Fate) (n : ℕ) (w : State × ℕ)
          → AtMostOnce body k start w.0
          → AtMostOnce body k start
              ((over py event_id ticks max_request_bytes key producer request_sent net) fate n
                w).1.0
            × ((v : Json)
                → ((over py event_id ticks max_request_bytes key producer request_sent net) fate n
                    w).0
                  ≡ success v
                → IsOnce body k start
                    ((over py event_id ticks max_request_bytes key producer request_sent net) fate n
                      w).1.0)
      over-AtMostOnce (lost_request message) n w phase = (phase, λ v h. absurd (cc))
      over-AtMostOnce (lost_answer message) n w phase =
          ((served-AtMostOnce n w.0 phase).0, λ v h. absurd (cc))
      over-AtMostOnce delivered n w phase = served-AtMostOnce n w.0 phase

      request-AtMostOnce :
          (policy : RetryPolicy) (idempotent : Bool) (clock : ℕ)
          → Leaves
              (λ w. AtMostOnce body k start w.0)
              (λ w v. IsOnce body k start w.0)
              (request
                (over_network py event_id ticks max_request_bytes key producer request_sent net)
                policy
                idempotent
                (start, clock))
      request-AtMostOnce policy idempotent clock =
          request-Leaves
            (over_network py event_id ticks max_request_bytes key producer request_sent net) policy
            idempotent (λ w. AtMostOnce body k start w.0) (λ w v. IsOnce body k start w.0)
            (λ n w p. (over-AtMostOnce (net.fate n) n w p).0) (λ d w p. p)
            (λ n w v p h. (over-AtMostOnce (net.fate n) n w p).1 v h) (start, clock) (inl refl)

-- A publication with an idempotency key, however often the client tries it and whatever the network
-- loses, is ingested at most once: behind it the store is as it was, or as after ingesting the event of
-- the body one single time, but for the number of ids that were drawn. When the client returns a
-- result, the event was ingested. The request is one event that the body's key is read from.
pub publish-IsOnce :
    (py : Python) (event_id : ℕ → String) (ticks max_request_bytes : ℕ) (key : ApiKey)
    (producer : Producer) (sent : HttpRequest) (net : Network) (policy : RetryPolicy)
    (idempotent : Bool) (body : Fields) (k : String) (start : State) (clock : ℕ)
    → text_at body "idempotency_key" ≡ ok (some k)
    → batch_of py event_id ticks max_request_bytes sent ≡ ok (obj body ∷ [])
    → Leaves
        (λ w. AtMostOnce py event_id ticks max_request_bytes key producer sent net body k start w.0)
        (λ w v. IsOnce py event_id ticks max_request_bytes key producer sent net body k start w.0)
        (request
          (over_network py event_id ticks max_request_bytes key producer sent net)
          policy
          idempotent
          (start, clock))
publish-IsOnce py event_id ticks max_request_bytes key producer sent net policy idempotent body k
      start clock named batch =
    request-AtMostOnce py event_id ticks max_request_bytes key producer sent net body k start named
      batch policy idempotent clock
