-- ===== src/Control/Playground/Refusing.antt =====
-- Why `playground_publish` of routes/api/control.py may refuse.
use beacn.Base.{
  ℕ, ◌≡◌, refl, ◌∙◌, true, String, List, Option, none, some, find, Bool-cases, inl, inr, ◌⊎◌, ◌≢◌,
  ap, is_empty,
}
use beacn.Base.Strip.{strip}
use beacn.Base.Json.{Json, Fields, null, bool, num, str, arr, obj}
use beacn.Errors.{Failure, Result, ok, err, ◌>>=◌, invalid, raise, not_found, ok-injective}
use beacn.Events as Events
use beacn.Events.Model.{Time, Python}
use beacn.Auth.{Producer}
use beacn.Control.Playground.{
  home, event_object, is_producer, playground_producer, playground_context, playground_envelope,
}

pub playground_producer-find :
    (environment producer_id : String) (producers : List Producer) (p : Producer)
    → playground_producer environment producer_id producers ≡ ok p
    → find (is_producer (home environment) (strip producer_id)) producers ≡ some p
unfolding playground_producer
playground_producer-find environment producer_id producers p h =
    elim (Bool-cases (is_empty (strip producer_id))) [
      | inl bare ↦
          (let bad : invalid "producer_id is required" ≡ ok p =
              rw (bare, playground_producer) at h in
            absurd (cc))
      | inr named ↦
          go (find (is_producer (home environment) (strip producer_id)) producers)
            (rw (named, playground_producer) at h)
    ]
  where
    go :
        (m : Option Producer)
        → (elim m as (λ x. Result Producer) [
          | none ↦ raise not_found "no producer with that id in this environment"
          | some producer ↦ ok producer
        ])
          ≡ ok p
        → m ≡ some p
    go none h = absurd (cc)
    go (some q) h = ap some (ok-injective h)

-- Where a sequence fails.
bind-eq-err :
    {A B : Type 0} (m : Result A) (k : A → Result B) (e : Failure)
    → (m >>= k) ≡ err e
    → (m ≡ err e) ⊎ ((a : A) × (m ≡ ok a) × (k a ≡ err e))
bind-eq-err (ok a) k e h = inr (a, refl, h)
bind-eq-err (err d) k e h = inl (cc)

-- Why the playground may refuse: no producer is named or found, the body holds no object, or the event
-- is refused as one of the producer that was found.
pub data Refusal (py : Python) (environment producer_id : String) (body : Json)
    (producers : List Producer) (now : Time) (id : String) (e : Failure) : Type 0 where
  unnamed :
      is_empty (strip producer_id) ≡ true
      → Refusal py environment producer_id body producers now id e
  unknown :
      find (is_producer (home environment) (strip producer_id)) producers ≡ none
      → Refusal py environment producer_id body producers now id e
  no_object :
      ((fields : Fields) → body ≢ obj fields)
      → Refusal py environment producer_id body producers now id e
  bad_event :
      (producer : Producer)
      → find (is_producer (home environment) (strip producer_id)) producers ≡ some producer
      → Events.ingest py body
          (record {
            producer = producer.name;
            producer_id = some producer.id;
            environment = home environment;
            api_key_id = none;
          })
          now
          id
        ≡ err e
      → Refusal py environment producer_id body producers now id e

playground_producer-fails :
    (environment producer_id : String) (producers : List Producer) (e : Failure)
    → playground_producer environment producer_id producers ≡ err e
    → (is_empty (strip producer_id) ≡ true)
      ⊎ (find (is_producer (home environment) (strip producer_id)) producers ≡ none)
unfolding playground_producer
playground_producer-fails environment producer_id producers e h =
    elim (Bool-cases (is_empty (strip producer_id))) [
      | inl bare ↦ inl bare
      | inr named ↦ inr (
          go (find (is_producer (home environment) (strip producer_id)) producers)
            (rw (named, playground_producer) at h))
    ]
  where
    go :
        (m : Option Producer)
        → (elim m as (λ x. Result Producer) [
          | none ↦ raise not_found "no producer with that id in this environment"
          | some producer ↦ ok producer
        ])
          ≡ err e
        → m ≡ none
    go none h = refl
    go (some q) h = absurd (cc)

event_object-fails :
    (body : Json) (e : Failure) → event_object body ≡ err e → (fields : Fields) → body ≢ obj fields
event_object-fails (obj body) e h fields same = cc
event_object-fails null e h fields same = cc
event_object-fails (bool b) e h fields same = cc
event_object-fails (num n d) e h fields same = cc
event_object-fails (str t) e h fields same = cc
event_object-fails (arr vs) e h fields same = cc

event_object-same : (body event : Json) → event_object body ≡ ok event → body ≡ event
event_object-same (obj body) event h = ok-injective h
event_object-same null event h = absurd (cc)
event_object-same (bool b) event h = absurd (cc)
event_object-same (num n d) event h = absurd (cc)
event_object-same (str t) event h = absurd (cc)
event_object-same (arr vs) event h = absurd (cc)

pub playground_envelope-Refusal :
    (py : Python) (event_id : ℕ → String) (environment producer_id : String) (body : Json)
    (producers : List Producer) (now : Time) (drawn : ℕ) (e : Failure)
    → playground_envelope py event_id environment producer_id body producers now drawn ≡ err e
    → Refusal py environment producer_id body producers now (event_id drawn) e
unfolding playground_envelope playground_context
playground_envelope-Refusal py event_id environment producer_id body producers now drawn e h =
    elim (bind-eq-err (playground_producer environment producer_id producers) _ e h) [
      | inl failed ↦ elim (playground_producer-fails environment producer_id producers e failed) [
        | inl bare ↦ unnamed bare
        | inr missing ↦ unknown missing
      ]
      | inr (p, found, h1) ↦ elim (bind-eq-err (event_object body) _ e h1) [
        | inl failed ↦ no_object (event_object-fails body e failed)
        | inr (event, read, h2) ↦
            bad_event p (playground_producer-find environment producer_id producers p found) (
              ap (λ b. Events.ingest py b (playground_context environment p) now (event_id drawn))
                (event_object-same body event read)
              ∙ h2)
      ]
    ]
