-- ===== src/Api/Batches.antt =====
-- Every event of a batch that is let in is answered for.
use beacn.Base.{
  ℕ, suc, ◌+◌, ◌≡◌, refl, ap, sym, ◌∙◌, inl, inr, Bool, true, String, List, [], ◌∷◌, arith, length,
  Option-cases,
}
use beacn.Base.Json.{Json}
use beacn.Errors.{beacn_error, uncaught, Result, ok, err, ◌>>=◌, bind-eq-ok, ok-injective}
use beacn.Events.{ingest}
use beacn.Events.Model.{Time, ProducerContext, Envelope, Python}
use beacn.Ingest as Ingest
use beacn.Ingest.{IngestResult}
use beacn.RateLimit.{Limiter, Outcome, admitted, limited, check}
use beacn.Auth.{ApiKey, Producer}
use beacn.Api.{HttpRequest, Response, Payload, payload, error_payload, reply}
use beacn.Api.Publish.{
  State, Rejected, Collected, add_envelope, add_error, Published, published, no_valid_events,
  collect, store_batch, answer_batch, admitted_batch, limited_batch, batch_of, publish_events,
  producer_context, rate_error,
}

-- How many events an answer speaks of.
pub answered_for : Published → ℕ
answered_for (published r errors) = length r.accepted + length errors
answered_for (no_valid_events errors) = length errors

pub length_of_payload : Payload Published → ℕ
unfolding answered_for
length_of_payload (payload p) = answered_for p
length_of_payload (error_payload code message) = 0

module _ (expand : Envelope → Ingest.State → Ingest.State) (persist fan_out : Bool) where
  -- Every envelope is accepted, as a first one or as a repeat.
  length-ingest_with :
      (envs : List Envelope) (s : Ingest.State)
      → length (Ingest.ingest_with expand persist fan_out envs s).0.accepted ≡ length envs
  unfolding Ingest.ingest_with
  length-ingest_with [] s = refl
  length-ingest_with (env ∷ envs) s = elim (Option-cases (Ingest.dedupe env s).0) [
    | inl fresh ↦
        rw (fresh, Ingest.ingest_with)
          (ap suc (
            length-ingest_with envs
              (expand env (Ingest.deliver persist fan_out env (Ingest.dedupe env s).1))))
    | inr (id, known) ↦
        rw (known, Ingest.ingest_with) (ap suc (length-ingest_with envs (Ingest.dedupe env s).1))
  ]

module _ (py : Python) (event_id : ℕ → String) (ticks max_request_bytes : ℕ) where
  collect-length :
      (ctx : ProducerContext) (now : Time) (i n : ℕ) (raws : List Json) (c : Collected)
      → collect py event_id ticks max_request_bytes ctx now i n raws ≡ ok c
      → length c.envelopes + length c.errors ≡ length raws
  unfolding collect
  collect-length ctx now i n [] c h =
      ap (λ c. length c.envelopes + length c.errors) (sym (ok-injective h))
  collect-length ctx now i n (raw ∷ raws) c h =
      go (ingest py raw ctx now (event_id n)) h (collect-length ctx now (i + 1) (n + 1) raws)
        (collect-length ctx now (i + 1) n raws)
    where
      rest : ℕ → Result Collected
      rest n = collect py event_id ticks max_request_bytes ctx now (i + 1) n raws

      go :
          (r : Result Envelope)
          → (elim r as (λ x. Result Collected) [
            | ok env ↦ rest (n + 1) >>= λ c. ok (add_envelope env c)
            | err (beacn_error e) ↦ rest n >>= λ c. ok (add_error i e c)
            | err uncaught ↦ err uncaught
          ])
            ≡ ok c
          → ((c : Collected)
              → rest (n + 1) ≡ ok c
              → length c.envelopes + length c.errors ≡ length raws)
          → ((c : Collected) → rest n ≡ ok c → length c.envelopes + length c.errors ≡ length raws)
          → length c.envelopes + length c.errors ≡ suc (length raws)
      go (ok env) h ih1 ih2 =
          let (c', found, made) = bind-eq-ok (rest (n + 1)) _ h in
          ap (λ c. length c.envelopes + length c.errors) (sym (ok-injective made))
          ∙ omega (arith, ih1 c' found)
      go (err (beacn_error e)) h ih1 ih2 =
          let (c', found, made) = bind-eq-ok (rest n) _ h in
          ap (λ c. length c.envelopes + length c.errors) (sym (ok-injective made))
          ∙ omega (arith, ih2 c' found)
      go (err uncaught) h ih1 ih2 = absurd (cc)

  -- The events that an answer speaks of.
  Counted : Result (Response Published) → (ℕ → Type 0) → Type 0
  Counted (ok r) P = P (length_of_payload r.content)
  Counted (err e) P = Unit

  store_batch-Counted :
      (producer : Producer) (now : Time) (c : Collected) (s : State)
      → Counted
          (store_batch py event_id ticks max_request_bytes producer now c s).0
          (λ n. n ≡ length c.envelopes + length c.errors)
  unfolding store_batch Counted length_of_payload answered_for Ingest.ingest
  store_batch-Counted producer now c s =
      ap (λ n. n + length c.errors)
        (length-ingest_with (Ingest.propagate_from event_id true true) true true c.envelopes
          (record s.store { ids_drawn = c.ids_drawn }))

  answer_batch-Counted :
      (producer : Producer) (now : Time) (c : Collected) (s : State)
      → Counted
          (answer_batch py event_id ticks max_request_bytes producer now c s).0
          (λ n. n ≡ length c.envelopes + length c.errors)
  unfolding answer_batch Counted length_of_payload answered_for
  answer_batch-Counted producer now c s = go c.envelopes c.errors refl refl
    where
      stored : Result (Response Published) × State
      stored = store_batch py event_id ticks max_request_bytes producer now c s

      go :
          (envs : List Envelope) (es : List Rejected)
          → c.envelopes ≡ envs
          → c.errors ≡ es
          → Counted
              (elim envs as (λ x. Result (Response Published) × State) [
                | [] ↦ elim es as (λ x. Result (Response Published) × State) [
                  | [] ↦ stored
                  | e ∷ rest ↦ (ok (reply 422 (no_valid_events c.errors)), s)
                ]
                | env ∷ envs ↦ stored
              ]).0
              (λ n. n ≡ length c.envelopes + length c.errors)
      go [] [] e1 e2 = store_batch-Counted producer now c s
      go [] (e ∷ rest) e1 e2 = omega (arith, ap (length {A = Envelope}) e1)
      go (env ∷ envs) es e1 e2 = store_batch-Counted producer now c s

  Counted-ok :
      (r : Response Published) (m : Result (Response Published)) (n : ℕ)
      → m ≡ ok r
      → Counted m (λ k. k ≡ n)
      → length_of_payload r.content ≡ n
  unfolding Counted
  Counted-ok r (ok q) n e h = ap (λ x. length_of_payload x.content) (sym (ok-injective e)) ∙ h
  Counted-ok r (err f) n e h = absurd (cc)

  admitted_batch-counts :
      (key : ApiKey) (producer : Producer) (now : Time) (raws : List Json) (s : State)
      (r : Response Published)
      → (admitted_batch py event_id ticks max_request_bytes key producer now raws s).0 ≡ ok r
      → length_of_payload r.content ≡ length raws
  unfolding admitted_batch
  admitted_batch-counts key producer now raws s r h =
      go
        (collect py event_id ticks max_request_bytes (producer_context key producer) now 0
          s.store.ids_drawn raws)
        h (collect-length (producer_context key producer) now 0 s.store.ids_drawn raws)
    where
      go :
          (m : Result Collected)
          → (elim m as (λ x. Result (Response Published) × State) [
            | ok c ↦ answer_batch py event_id ticks max_request_bytes producer now c s
            | err e ↦ (err e, s)
          ]).0
            ≡ ok r
          → ((c : Collected) → m ≡ ok c → length c.envelopes + length c.errors ≡ length raws)
          → length_of_payload r.content ≡ length raws
      go (ok c) h k =
          Counted-ok r (answer_batch py event_id ticks max_request_bytes producer now c s).0
            (length c.envelopes + length c.errors) h (answer_batch-Counted producer now c s)
          ∙ k c refl
      go (err e) h k = absurd (cc)

  -- A batch that is let in and answered is answered in full: the accepted events, the repeats among
  -- them included, and the rejected ones are together as many as the events of the request.
  pub publish_events-counts :
      (request : HttpRequest) (now : Time) (clock : ℕ) (key : ApiKey) (producer : Producer)
      (s : State) (raws : List Json) (r : Response Published)
      → batch_of py event_id ticks max_request_bytes request ≡ ok raws
      → (publish_events py event_id ticks max_request_bytes request now clock key producer s).0
        ≡ ok r
      → length_of_payload r.content ≡ length raws
  unfolding publish_events limited_batch
  publish_events-counts request now clock key producer s raws r batch h =
      go (check ticks s.limiter key.prefix (length raws) clock) (rw (batch, publish_events) at h)
    where
      go :
          (d : Limiter × Outcome)
          → (elim d.1 as (λ x. Result (Response Published) × State) [
            | admitted ↦
                admitted_batch py event_id ticks max_request_bytes key producer now raws
                  (record s { limiter = d.0 })
            | limited after ↦ (
              err (beacn_error (rate_error py event_id ticks max_request_bytes after)),
              record s { limiter = d.0 },
            )
          ]).0
            ≡ ok r
          → length_of_payload r.content ≡ length raws
      go (l, admitted) h =
          admitted_batch-counts key producer now raws (record s { limiter = l }) r h
      go (l, limited after) h = absurd (cc)
