-- ===== src/Integrations/Repeats.antt =====
-- Of the signals of one kind that a task gives, only the first is stored.
use beacn.Base.{
  ℕ, subst, ◌≡◌, refl, ap, sym, ◌∙◌, Bool, true, false, String, List, [], ◌∷◌, Option, none, some,
  or_default, is_empty, ◌==◌, arith, Bool-cases, Option-cases, inl, inr, if◌then◌else◌, map,
}
use beacn.Base.Json.{Json, str, obj, Fields, end, field, get?, value_or_null}
use beacn.Base.Ink.{HasInk, HasInk-append, HasInk-full, strip-full}
use beacn.Errors.{ok, ok-injective}
use beacn.Events.{text_at, clean_str}
use beacn.Events as Events
use beacn.Events.Model.{Time, ProducerContext, Envelope, Python}
use beacn.Events.Repeats.{ingest-idempotency_key}
use beacn.Events.Validation.{ingest-FromServer}
use beacn.Ingest.{State, ingest, id_of_accepted, repeat_of, given_key}
use beacn.Ingest.Claims.{ingest_once}
use beacn.Sdk.Body.{
  Defaults, topic_or, build_body, publish_body, copy_fields, set_default, add_field,
}
use beacn.Integrations.{text_or_null, Signalled, emit, emit_kw, event_key, signal_event, event_data}

-- The key of what is published is the one of the keywords.
built :
    (event : String) (topic : Option String) (d : Json) (source correlation : Option String)
    (severity key : String)
    → get?
        (build_body event topic (some d) (
          field "source" (text_or_null source) (
            field "severity" (str severity) (
              field "correlation_id"
                (text_or_null correlation)
                (field "idempotency_key" (str key) end)))))
        "idempotency_key"
      ≡ some (str key)
unfolding build_body copy_fields
built event topic d none none severity key = elim (Bool-cases (is_empty (or_default topic ""))) [
  | inl bare ↦ rw bare refl
  | inr named ↦ rw named refl
]
built event topic d none (some c) severity key =
    elim (Bool-cases (is_empty (or_default topic ""))) [
      | inl bare ↦ rw bare refl
      | inr named ↦ rw named refl
    ]
built event topic d (some t) none severity key =
    elim (Bool-cases (is_empty (or_default topic ""))) [
      | inl bare ↦ rw bare refl
      | inr named ↦ rw named refl
    ]
built event topic d (some t) (some c) severity key =
    elim (Bool-cases (is_empty (or_default topic ""))) [
      | inl bare ↦ rw bare refl
      | inr named ↦ rw named refl
    ]

get?-add_field-other :
    (key k : String) (v w : Json) (fs : Fields)
    → get? fs k ≡ some w
    → get? (add_field key v fs) k ≡ some w
unfolding add_field
get?-add_field-other key k v w end h = absurd (cc)
get?-add_field-other key k v w (field j u fs) h = ground (arith, get?-add_field-other key k v w fs)

set_default-keeps :
    (key k : String) (v w : Json) (fs : Fields)
    → get? fs k ≡ some w
    → get? (set_default key v fs) k ≡ some w
unfolding set_default
set_default-keeps key k v w fs h = elim (Option-cases (get? fs key)) [
  | inl free ↦ rw (free, set_default) (get?-add_field-other key k v w fs h)
  | inr (u, taken) ↦ rw (taken, set_default) h
]

abbrev published : Defaults → String → Option String → String → Signalled → Fields
published defaults topic source name s =
    publish_body defaults name (some topic) (some (obj (event_data s end))) (emit_kw source name s)

published-idempotency_key :
    (defaults : Defaults) (topic : String) (source : Option String) (name : String) (s : Signalled)
    → get? (published defaults topic source name s) "idempotency_key"
      ≡ some (str (event_key s.task_id name))
unfolding publish_body
published-idempotency_key defaults topic source name s =
    let found =
      built name (topic_or (some topic) defaults.default_topic) (obj (event_data s end)) source
        s.correlation_id _ (event_key s.task_id name) in
    elim (Bool-cases (is_empty (or_default defaults.default_source ""))) [
      | inl bare ↦ rw bare found
      | inr named ↦ rw named (set_default-keeps "source" "idempotency_key" _ _ _ found)
    ]

-- The body that a signal is published with bears the task's id and the event's name as its key.
emit-idempotency_key :
    (defaults : Defaults) (topic : String) (source : Option String) (signal name : String)
    (s : Signalled) (body : Fields)
    → signal_event signal ≡ some name
    → emit defaults topic source signal s ≡ some body
    → get? body "idempotency_key" ≡ some (str (event_key s.task_id name))
unfolding emit
emit-idempotency_key defaults topic source signal name s body known h =
    let made : some (published defaults topic source name s) ≡ some body = rw (known, emit) at h in
    let same : published defaults topic source name s ≡ body = cc in
    ap (λ b. get? b "idempotency_key") (sym same)
    ∙ published-idempotency_key defaults topic source name s

if-some :
    (b : Bool) (a name : String) (o : Option String)
    → (if b then some a else o) ≡ some name
    → HasInk a
    → (o ≡ some name → HasInk name)
    → HasInk name
if-some true a name o h ink rest = let same : a ≡ name = cc in subst HasInk same ink
if-some false a name o h ink rest = rest h

-- Every name of an event is written.
signal_event-HasInk : (signal name : String) → signal_event signal ≡ some name → HasInk name
unfolding signal_event
signal_event-HasInk signal name h =
    if-some (signal == "before_task_publish") "task.created" name _ h (inl refl) (λ h.
      if-some (signal == "task_prerun") "task.started" name _ h (inl refl) (λ h.
        if-some (signal == "task_retry") "task.retrying" name _ h (inl refl) (λ h.
          if-some (signal == "task_success") "task.completed" name _ h (inl refl) (λ h.
            if-some (signal == "task_failure") "task.failed" name _ h (inl refl) (λ h.
              if-some (signal == "task_revoked") "task.revoked" name none h (inl refl)
                (λ h. absurd (cc)))))))

-- A key that is not blank is taken as it is, without the blanks around it.
text_at-full :
    (body : Fields) (key k : String) (given : Option String)
    → get? body key ≡ some (str k)
    → HasInk k
    → text_at body key ≡ ok given
    → is_empty (given_key given) ≡ false
unfolding text_at clean_str
text_at-full body key k given found ink h =
    ground (arith, found, HasInk-full k ink, strip-full k ink)

text_at-same :
    (b1 b2 : Fields) (key : String) (v : Json)
    → get? b1 key ≡ some v
    → get? b2 key ≡ some v
    → text_at b1 key ≡ text_at b2 key
unfolding text_at
text_at-same b1 b2 key v h1 h2 = ap (λ o. clean_str (value_or_null o) key 200 false) (h1 ∙ sym h2)

emit-signal_event :
    (defaults : Defaults) (topic : String) (source : Option String) (signal : String)
    (s : Signalled) (body : Fields)
    → emit defaults topic source signal s ≡ some body
    → (name : String) × (signal_event signal ≡ some name)
unfolding emit
emit-signal_event defaults topic source signal s body h =
    elim (Option-cases (signal_event signal)) [
      | inl unknown ↦ (let bad : none ≡ some body = rw (unknown, emit) at h in absurd (cc))
      | inr known ↦ known
    ]

-- A signal that a task gives a second time (a second retry, or the start of the attempt behind it) is
-- taken for a repeat of the first: the two events bear one key, so the second is answered with the id of
-- the first and changes nothing, whatever their data say and whatever is ingested between them. Both
-- are of one producer, and both are accepted as events.
pub signal_again-ingest :
    (py : Python) (event_id : ℕ → String) (ctx : ProducerContext) (defaults : Defaults)
    (topic : String) (source : Option String) (signal : String) (one two : Signalled)
    (body again : Fields) (t1 t2 : Time) (id1 id2 : String) (env env2 : Envelope)
    (others : List Envelope) (s : State)
    → two.task_id ≡ one.task_id
    → emit defaults topic source signal one ≡ some body
    → emit defaults topic source signal two ≡ some again
    → Events.ingest py (obj body) ctx t1 id1 ≡ ok env
    → Events.ingest py (obj again) ctx t2 id2 ≡ ok env2
    → (id : String) × ((map id_of_accepted (ingest event_id true true true (env ∷ []) s).0.accepted
          ≡ id ∷ [])
        × (ingest event_id true true true
              (env2 ∷ [])
              (ingest event_id true true true others
                (ingest event_id true true true (env ∷ []) s).1).1
            ≡ (
              repeat_of id env2 (record { accepted = []; deduplicated = 0 }),
              (ingest event_id true true true others
                  (ingest event_id true true true (env ∷ []) s).1).1,
            )))
signal_again-ingest py event_id ctx defaults topic source signal one two body again t1 t2 id1 id2
      env env2 others s same_task e1 e2 ok1 ok2 =
    let (name, known) = emit-signal_event defaults topic source signal one body e1 in
    let key1 = emit-idempotency_key defaults topic source signal name one body known e1 in
    let key2 =
      emit-idempotency_key defaults topic source signal name two again known e2
      ∙ ap (λ t. some (str (event_key t name))) same_task in
    let read1 = ingest-idempotency_key py body ctx t1 id1 env ok1 in
    let read2 = ingest-idempotency_key py again ctx t2 id2 env2 ok2 in
    let same_key : env2.idempotency_key ≡ env.idempotency_key =
      ok-injective (sym read2 ∙ text_at-same again body "idempotency_key" _ key2 key1 ∙ read1) in
    let first = ingest-FromServer py (obj body) ctx t1 id1 env ok1 in
    let second = ingest-FromServer py (obj again) ctx t2 id2 env2 ok2 in
    ingest_once event_id true true true env env2 others s
      (text_at-full body "idempotency_key" (event_key one.task_id name) env.idempotency_key key1
        (HasInk-append one.task_id _
          (HasInk-append ":" name (signal_event-HasInk signal name known)))
        read1)
      (second.environment_eq ∙ sym first.environment_eq)
      (second.producer_id_eq ∙ sym first.producer_id_eq) same_key
