-- ===== src/Events/Repeats.antt =====
-- The idempotency key of an envelope is the one of the body.
use beacn.Base.{◌≡◌, ap, sym, ◌∙◌, Bool, true, false, String, if◌then◌else◌}
use beacn.Base.Json.{obj, Fields, get}
use beacn.Errors.{ok, bind-eq-ok, ok-injective}
use beacn.Events.Model.{Time, ProducerContext, Envelope, Python}
use beacn.Events.{
  Optional, text_at, parse_dt, core_of, optional_of, build, with_task_fields, is_task,
  ingest_object, ingest,
}

optional_of-idempotency :
    (py : Python) (body : Fields) (o : Optional)
    → optional_of py body ≡ ok o
    → text_at body "idempotency_key" ≡ ok o.idempotency
unfolding optional_of
optional_of-idempotency py body o h =
    let (_, _, h1) = bind-eq-ok (text_at body "source") _ h in
    let (_, _, h2) = bind-eq-ok (parse_dt py (get body "occurred_at") "occurred_at") _ h1 in
    let (_, _, h3) = bind-eq-ok (text_at body "correlation_id") _ h2 in
    let (_, _, h4) = bind-eq-ok (text_at body "request_id") _ h3 in
    let (_, _, h5) = bind-eq-ok (text_at body "user_id") _ h4 in
    let (_, _, h6) = bind-eq-ok (text_at body "organization_id") _ h5 in
    let (_, _, h7) = bind-eq-ok (text_at body "project_id") _ h6 in
    let (given, read, h8) = bind-eq-ok (text_at body "idempotency_key") _ h7 in
    read ∙ ap (λ (o : Optional). ok o.idempotency) (ok-injective h8)

finished-idempotency_key :
    (py : Python) (task : Bool) (e env : Envelope)
    → (if task then ok (with_task_fields py e) else ok e) ≡ ok env
    → env.idempotency_key ≡ e.idempotency_key
unfolding with_task_fields
finished-idempotency_key py true e env h =
    ap (λ (e : Envelope). e.idempotency_key) (sym (ok-injective h))
finished-idempotency_key py false e env h =
    ap (λ (e : Envelope). e.idempotency_key) (sym (ok-injective h))

pub ingest-idempotency_key :
    (py : Python) (body : Fields) (ctx : ProducerContext) (ts : Time) (id : String) (env : Envelope)
    → ingest py (obj body) ctx ts id ≡ ok env
    → text_at body "idempotency_key" ≡ ok env.idempotency_key
unfolding ingest ingest_object build
ingest-idempotency_key py body ctx ts id env h =
    let (core, core_ok, h1) = bind-eq-ok (core_of py body) _ h in
    let (opt, opt_ok, h2) = bind-eq-ok (optional_of py body) _ h1 in
    let made = build core opt ctx ts id in
    optional_of-idempotency py body opt opt_ok
    ∙ ap ok (sym (finished-idempotency_key py (is_task made.kind) made env h2))
