-- ===== src/Ingest/Claims.antt =====
-- A key that was claimed stays claimed: an event that is sent again is answered with the first one's
-- id, and nothing else is done.
use beacn.Base.{
  ℕ, ◌≡◌, refl, ap, ◌∙◌, sym, Bool, true, false, String, List, [], ◌∷◌, Option, none, some, arith,
  ◌⊎◌, is_empty, eq_refl, find, find-append, find-last, Bool-cases, Option-cases, inl, inr,
}
use beacn.Events.Model.{Envelope}
use mathlib.Core.List.{map}
use beacn.Ingest.{
  State, EventIdempotency, is_claim, id_of_accepted, repeat_of, given_key, claim_of, same_option,
  dedupe, store, observe, fan_out_to, deliver, topic_settings, is_cached, ingest_with,
  propagate_from, ingest, stop,
}

-- The id that answers for a key in a state.
unfoldable pub answer : String → Option String → String → State → Option EventIdempotency
answer environment producer_id key s = find (is_claim environment producer_id key) s.idempotency

-- What keeps every claim.
abbrev Keeps : State → State → Type 0
Keeps s s' =
    (environment : String) (producer_id : Option String) (key : String) (r : EventIdempotency)
    → answer environment producer_id key s ≡ some r
    → answer environment producer_id key s' ≡ some r

topic_settings-idempotency :
    (environment topic : String) (s : State)
    → (topic_settings environment topic s).1.idempotency ≡ s.idempotency
unfolding topic_settings
topic_settings-idempotency environment topic s =
    elim (Option-cases (find (is_cached environment topic) s.topic_cache)) [
      | inl fresh ↦ rw (fresh, topic_settings) refl
      | inr (entry, cached) ↦ rw (cached, topic_settings) refl
    ]

store-idempotency :
    (persist : Bool) (env : Envelope) (s : State)
    → (store persist env s).idempotency ≡ s.idempotency
unfolding store
store-idempotency false env s = refl
store-idempotency true env s =
    elim (Bool-cases (topic_settings env.environment env.topic s).0.persist) [
      | inl keeps ↦ rw keeps (topic_settings-idempotency env.environment env.topic s)
      | inr drops ↦ rw drops (topic_settings-idempotency env.environment env.topic s)
    ]

observe-idempotency : (env : Envelope) (s : State) → (observe env s).idempotency ≡ s.idempotency
unfolding observe
observe-idempotency env s = ground arith

fan_out_to-idempotency :
    (fan_out : Bool) (env : Envelope) (s : State)
    → (fan_out_to fan_out env s).idempotency ≡ s.idempotency
unfolding fan_out_to
fan_out_to-idempotency fan_out env s = ground arith

deliver-idempotency :
    (persist fan_out : Bool) (env : Envelope) (s : State)
    → (deliver persist fan_out env s).idempotency ≡ s.idempotency
unfolding deliver
deliver-idempotency persist fan_out env s =
    fan_out_to-idempotency fan_out env (observe env (store persist env s))
    ∙ observe-idempotency env (store persist env s)
    ∙ store-idempotency persist env s

-- A step that leaves the table as it is keeps every claim.
same-Keeps : (s s' : State) → s'.idempotency ≡ s.idempotency → Keeps s s'
unfolding answer
same-Keeps s s' same environment producer_id key r h =
    ap (find (is_claim environment producer_id key)) same ∙ h

dedupe-Keeps : (env : Envelope) (s : State) → Keeps s (dedupe env s).1
unfolding dedupe answer
dedupe-Keeps env s environment producer_id key r h =
    elim (Bool-cases (is_empty (given_key env.idempotency_key))) [
      | inl bare ↦ rw bare h
      | inr named ↦
          elim (Option-cases (
            find (is_claim env.environment env.producer_id (given_key env.idempotency_key))
              s.idempotency)) [
                | inl fresh ↦
                    rw (named, fresh)
                      (find-append (is_claim environment producer_id key) s.idempotency _ r h)
                | inr (first, known) ↦ rw (named, known) h
              ]
    ]

-- A pass over envelopes keeps every claim, if what is done behind each fan-out does.
ingest_with-Keeps :
    (expand : Envelope → State → State)
    → ((env : Envelope) (s : State) → Keeps s (expand env s))
    → (persist fan_out : Bool) (envs : List Envelope) (s : State)
    → Keeps s (ingest_with expand persist fan_out envs s).1
unfolding ingest_with
ingest_with-Keeps expand k persist fan_out [] s environment producer_id key r h = h
ingest_with-Keeps expand k persist fan_out (env ∷ envs) s environment producer_id key r h =
    let s' = (dedupe env s).1 in
    let claimed = dedupe-Keeps env s environment producer_id key r h in
    elim (Option-cases (dedupe env s).0) [
      | inl fresh ↦
          let delivered =
            same-Keeps s' (deliver persist fan_out env s')
              (deliver-idempotency persist fan_out env s') environment producer_id key r claimed in
          rw (fresh, ingest_with)
            (ingest_with-Keeps expand k persist fan_out envs _ environment producer_id key r
              (k env _ environment producer_id key r delivered))
      | inr (id, known) ↦
          rw (known, ingest_with)
            (ingest_with-Keeps expand k persist fan_out envs s' environment producer_id key r
              claimed)
    ]

stop-Keeps : (env : Envelope) (s : State) → Keeps s (stop env s)
stop-Keeps env s environment producer_id key r h = h

module _ (event_id : ℕ → String) where
  propagate_from-Keeps :
      (persist fan_out : Bool) (env : Envelope) (s : State)
      → Keeps s (propagate_from event_id persist fan_out env s)
  unfolding propagate_from
  propagate_from-Keeps persist fan_out env s environment producer_id key r h =
      ingest_with-Keeps stop stop-Keeps persist fan_out _ _ environment producer_id key r (
        same-Keeps s _ (topic_settings-idempotency env.environment env.topic s) environment
          producer_id key r h)

  -- A key that was claimed stays claimed by the same event, whatever is ingested.
  ingest-Keeps :
      (persist fan_out propagate : Bool) (envs : List Envelope) (s : State)
      → Keeps s (ingest event_id persist fan_out propagate envs s).1
  unfolding ingest
  ingest-Keeps persist fan_out true envs s =
      ingest_with-Keeps (propagate_from event_id persist fan_out)
        (propagate_from-Keeps persist fan_out) persist fan_out envs s
  ingest-Keeps persist fan_out false envs s =
      ingest_with-Keeps stop stop-Keeps persist fan_out envs s

same_option_refl : (o : Option String) → same_option o o ≡ true
same_option_refl none = refl
same_option_refl (some t) = eq_refl t

is_claim-claim_of :
    (env : Envelope) (key : String)
    → is_claim env.environment env.producer_id key (claim_of key env) ≡ true
is_claim-claim_of env key =
    rw (eq_refl env.environment, same_option_refl env.producer_id, eq_refl key) refl

-- Behind `_dedupe`, the key of an event is claimed: by an earlier event, whose id was given, or by
-- this one.
dedupe-answer :
    (env : Envelope) (s : State)
    → is_empty (given_key env.idempotency_key) ≡ false
    → (r : EventIdempotency) × ((answer env.environment env.producer_id
            (given_key env.idempotency_key)
            (dedupe env s).1
          ≡ some r)
        × (((dedupe env s).0 ≡ some r.event_id)
            ⊎ (((dedupe env s).0 ≡ none) × (r.event_id ≡ env.id))))
unfolding answer dedupe
dedupe-answer env s named =
    let key = given_key env.idempotency_key in
    elim (Option-cases (find (is_claim env.environment env.producer_id key) s.idempotency)) [
      | inl fresh ↦ (
        claim_of key env,
        (
          rw (named, fresh, dedupe)
              (find-last (is_claim env.environment env.producer_id key) s.idempotency
                (claim_of key env) fresh (is_claim-claim_of env key)),
          inr (rw (named, fresh, dedupe) refl, refl),
        ),
      )
      | inr (first, known) ↦
          (first, (rw (named, known, dedupe) known, inl (rw (named, known, dedupe) refl)))
    ]

dedupe-known :
    (env : Envelope) (s : State) (r : EventIdempotency)
    → is_empty (given_key env.idempotency_key) ≡ false
    → answer env.environment env.producer_id (given_key env.idempotency_key) s ≡ some r
    → dedupe env s ≡ (some r.event_id, s)
unfolding dedupe answer
dedupe-known env s r named known = rw (named, known, dedupe) refl

-- An event whose key was claimed is answered with the id of the event that claimed it.
ingest_with-known :
    (expand : Envelope → State → State) (persist fan_out : Bool) (env : Envelope) (s : State)
    (r : EventIdempotency)
    → is_empty (given_key env.idempotency_key) ≡ false
    → answer env.environment env.producer_id (given_key env.idempotency_key) s ≡ some r
    → ingest_with expand persist fan_out (env ∷ []) s
      ≡ (repeat_of r.event_id env (record { accepted = []; deduplicated = 0 }), s)
unfolding ingest_with
ingest_with-known expand persist fan_out env s r named known =
    rw (dedupe-known env s r named known, ingest_with)
      (ap (λ d. (repeat_of r.event_id env (record { accepted = []; deduplicated = 0 }), d.1))
        (dedupe-known env s r named known))

-- After an event with a key, its key is claimed by the event whose id was reported.
ingest_with-answer :
    (expand : Envelope → State → State)
    → ((env : Envelope) (s : State) → Keeps s (expand env s))
    → (persist fan_out : Bool) (env : Envelope) (s : State)
    → is_empty (given_key env.idempotency_key) ≡ false
    → (r : EventIdempotency) × ((answer env.environment env.producer_id
            (given_key env.idempotency_key)
            (ingest_with expand persist fan_out (env ∷ []) s).1
          ≡ some r)
        × (map id_of_accepted (ingest_with expand persist fan_out (env ∷ []) s).0.accepted
            ≡ r.event_id ∷ []))
unfolding ingest_with answer
ingest_with-answer expand k persist fan_out env s named =
    let (r, (claimed, found)) = dedupe-answer env s named in
    let s' = (dedupe env s).1 in
    elim found [
      | inl known ↦ (r, (rw (known, ingest_with) claimed, rw (known, ingest_with) refl))
      | inr (fresh, own) ↦
          let delivered =
            same-Keeps s' (deliver persist fan_out env s')
              (deliver-idempotency persist fan_out env s') env.environment env.producer_id
              (given_key env.idempotency_key) r claimed in
          (
            r,
            (
              rw (fresh, ingest_with)
                  (k env _ env.environment env.producer_id (given_key env.idempotency_key) r
                    delivered),
              rw (fresh, ingest_with) (ap (λ i. i ∷ []) (sym own)),
            ),
          )
    ]

module _ (event_id : ℕ → String) where
  pub ingest-answer :
      (persist fan_out propagate : Bool) (env : Envelope) (s : State)
      → is_empty (given_key env.idempotency_key) ≡ false
      → (r : EventIdempotency) × ((answer env.environment env.producer_id
              (given_key env.idempotency_key)
              (ingest event_id persist fan_out propagate (env ∷ []) s).1
            ≡ some r)
          × (map id_of_accepted (ingest event_id persist fan_out propagate (env ∷ []) s).0.accepted
              ≡ r.event_id ∷ []))
  unfolding ingest
  ingest-answer persist fan_out true env s named =
      ingest_with-answer (propagate_from event_id persist fan_out)
        (propagate_from-Keeps event_id persist fan_out) persist fan_out env s named
  ingest-answer persist fan_out false env s named =
      ingest_with-answer stop stop-Keeps persist fan_out env s named

  pub ingest-known :
      (persist fan_out propagate : Bool) (env : Envelope) (s : State) (r : EventIdempotency)
      → is_empty (given_key env.idempotency_key) ≡ false
      → answer env.environment env.producer_id (given_key env.idempotency_key) s ≡ some r
      → ingest event_id persist fan_out propagate (env ∷ []) s
        ≡ (repeat_of r.event_id env (record { accepted = []; deduplicated = 0 }), s)
  unfolding ingest
  ingest-known persist fan_out true env s r named known =
      ingest_with-known (propagate_from event_id persist fan_out) persist fan_out env s r named
        known
  ingest-known persist fan_out false env s r named known =
      ingest_with-known stop persist fan_out env s r named known

  -- An event with a key is ingested, whatever else is ingested then, and then an event of the same
  -- producer and environment with the same key: the second is answered with the one id that the
  -- first was answered with, marked as a repeat, and changes nothing: it is not stored, observed,
  -- fanned out or propagated. The three calls have the same flags.
  pub ingest_once :
      (persist fan_out propagate : Bool) (env again : Envelope) (others : List Envelope) (s : State)
      → is_empty (given_key env.idempotency_key) ≡ false
      → again.environment ≡ env.environment
      → again.producer_id ≡ env.producer_id
      → again.idempotency_key ≡ env.idempotency_key
      → (id : String) × ((map id_of_accepted
              (ingest event_id persist fan_out propagate (env ∷ []) s).0.accepted
            ≡ id ∷ [])
          × (ingest event_id persist fan_out propagate
                (again ∷ [])
                (ingest event_id persist fan_out propagate others
                  (ingest event_id persist fan_out propagate (env ∷ []) s).1).1
              ≡ (
                repeat_of id again (record { accepted = []; deduplicated = 0 }),
                (ingest event_id persist fan_out propagate others
                    (ingest event_id persist fan_out propagate (env ∷ []) s).1).1,
              )))
  ingest_once persist fan_out propagate env again others s named e1 e2 e3 =
      let (r, (claimed, reported)) = ingest-answer persist fan_out propagate env s named in
      let s1 = (ingest event_id persist fan_out propagate (env ∷ []) s).1 in
      let s2 = (ingest event_id persist fan_out propagate others s1).1 in
      let kept =
        ingest-Keeps event_id persist fan_out propagate others s1 env.environment env.producer_id
          (given_key env.idempotency_key) r claimed in
      let same_key = ap given_key e3 in
      let known : answer again.environment again.producer_id (given_key again.idempotency_key) s2
          ≡ some r =
        ap (λ e. answer e again.producer_id (given_key again.idempotency_key) s2) e1
        ∙ ap (λ p. answer env.environment p (given_key again.idempotency_key) s2) e2
        ∙ ap (λ k. answer env.environment env.producer_id k s2) same_key
        ∙ kept in
      (
        r.event_id,
        (
          reported,
          ingest-known persist fan_out propagate again s2 r (ap is_empty same_key ∙ named) known,
        ),
      )
