-- ===== src/Events/Validation.antt =====
-- What an accepted envelope satisfies, whatever the body was.
use Prim.Native.String.{[], ◌∷◌}
use beacn.Base.{
  ℕ, ◌≤◌, ◌≡◌, refl, Bool, true, false, String, Option, none, some, arith, ltb, eqb, size, is_empty,
  elem, or_default, code, inl, inr, Bool-cases, ltb-false→le, if◌then◌else◌,
}
use beacn.Base.Strip.{strip}
use beacn.Base.Json.{Json, null, bool, num, str, arr, obj, Fields, get, or_else}
use beacn.Errors.{ok, raise, payload_too_large, bind-eq-ok, if-eq-ok, ok-injective}
use beacn.Events.{
  Envelope, ProducerContext, Python, Time, max_data_bytes, max_event_name, max_topic_name,
  severities, absent, clean_text, clean_str, first_segment, parse_dt, event_name, topic_name,
  severity_of, payload_of, schema_version_of, kind_for, is_task, Core, Optional, core_of,
  optional_of, text_at, build, with_task_fields, ingest_object, ingest, one_of_severities,
  object_or_invalid,
}
use beacn.Events.Names.{matches_event, matches_topic}

-- An optional text of the envelope is None, or not empty and within its bound.
abbrev pub IsClean : ℕ → Option String → Type 0
IsClean max_len none = Unit
IsClean max_len (some s) = (is_empty s ≡ false) × (size s ≤ max_len)

clean_text-IsClean :
    (s name : String) (n : ℕ) (required : Bool) (o : Option String)
    → clean_text s name n required ≡ ok o
    → IsClean n o
clean_text-IsClean s name n true none h = tt
clean_text-IsClean s name n false none h = tt
clean_text-IsClean s name n true (some t) h = ground arith
clean_text-IsClean s name n false (some t) h = ground arith

pub clean_str-IsClean :
    (v : Json) (name : String) (n : ℕ) (required : Bool) (o : Option String)
    → clean_str v name n required ≡ ok o
    → IsClean n o
unfolding clean_str
clean_str-IsClean v name n required none h = tt
clean_str-IsClean null name n true (some t) h = absurd (cc)
clean_str-IsClean null name n false (some t) h = absurd (cc)
clean_str-IsClean (str s) name n required (some t) h = elim (Bool-cases (is_empty s)) [
  | inl bare ↦ absurd (required_none required name t (ground arith))
  | inr _ ↦ clean_text-IsClean (strip s) name n required (some t) (ground arith)
]
  where
    required_none : (r : Bool) (name t : String) → absent r name ≡ ok (some t) → ⊥
    required_none true name t h = cc
    required_none false name t h = cc
clean_str-IsClean (bool b) name n required (some t) h = absurd (cc)
clean_str-IsClean (num m d) name n required (some t) h = absurd (cc)
clean_str-IsClean (arr vs) name n required (some t) h = absurd (cc)
clean_str-IsClean (obj fs) name n required (some t) h = absurd (cc)

pub record IsValid (py : Python) (env : Envelope) : Type 0 where
  pub event_matches : matches_event env.event ≡ true
  pub event_size : size env.event ≤ max_event_name
  pub topic_matches : matches_topic env.topic ≡ true
  pub topic_size : size env.topic ≤ max_topic_name
  pub severity_known : elem env.severity severities ≡ true
  pub payload_fits : py.dumped_bytes env.payload ≤ max_data_bytes
  pub version_clean : IsClean 32 (some env.schema_version)
  pub source_clean : IsClean 200 env.source
  pub correlation_clean : IsClean 200 env.correlation_id
  pub request_clean : IsClean 200 env.request_id
  pub user_clean : IsClean 200 env.user_id
  pub organization_clean : IsClean 200 env.organization_id
  pub project_clean : IsClean 200 env.project_id
  pub idempotency_clean : IsClean 200 env.idempotency_key
  pub kind_derived : env.kind ≡ kind_for env.event

size-or_default :
    (n : ℕ) (o : Option String) (d : String) → IsClean n o → size d ≤ n → size (or_default o d) ≤ n
size-or_default n none d h k = k
size-or_default n (some s) d h k = h.1

pub event_name_lem :
    (body : Fields) (name : String)
    → event_name body ≡ ok name
    → (matches_event name ≡ true) × (size name ≤ max_event_name)
unfolding event_name
event_name_lem body name h =
    let (given, cleaned, rest) =
      bind-eq-ok (clean_str (get body "event") "event" max_event_name true) _ h in
    let (matched, same) = if-eq-ok _ (or_default given "") _ rest in
    (
      rw (← same) matched,
      rw (← same) (
          size-or_default max_event_name given ""
            (clean_str-IsClean (get body "event") "event" max_event_name true given cleaned)
            (omega arith)),
    )

size-first_segment : (s : String) → size (first_segment s) ≤ size s
unfolding first_segment
size-first_segment [] = omega arith
size-first_segment (c ∷ s) = elim (Bool-cases (eqb (code c) b'.')) [
  | inl dot ↦ rw dot (omega arith)
  | inr other ↦ rw other (omega (arith, size-first_segment s))
]

topic_name_lem :
    (body : Fields) (name topic : String)
    → size name ≤ max_topic_name
    → topic_name body name ≡ ok topic
    → (matches_topic topic ≡ true) × (size topic ≤ max_topic_name)
unfolding topic_name
topic_name_lem body name topic fits h =
    let (given, cleaned, rest) =
      bind-eq-ok (clean_str (get body "topic") "topic" max_topic_name false) _ h in
    let (matched, same) = if-eq-ok _ (or_default given (first_segment name)) _ rest in
    (
      rw (← same) matched,
      rw (← same) (
          size-or_default max_topic_name given (first_segment name)
            (clean_str-IsClean (get body "topic") "topic" max_topic_name false given cleaned)
            (omega (arith, size-first_segment name))),
    )

severity_of_lem : (body : Fields) (s : String) → severity_of body ≡ ok s → elem s severities ≡ true
unfolding severity_of
severity_of_lem body s h = known (or_else (get body "severity") (str "info")) h
  where
    known : (v : Json) → one_of_severities v ≡ ok s → elem s severities ≡ true
    known (str t) e = let (listed, same) = if-eq-ok (elem t severities) t _ e in rw (← same) listed
    known null e = absurd (cc)
    known (bool b) e = absurd (cc)
    known (num m d) e = absurd (cc)
    known (arr vs) e = absurd (cc)
    known (obj fs) e = absurd (cc)

payload_of_lem :
    (py : Python) (body fs : Fields)
    → payload_of py body ≡ ok fs
    → py.dumped_bytes fs ≤ max_data_bytes
unfolding payload_of
payload_of_lem py body fs h =
    let (found, is_obj, rest) = bind-eq-ok (object_or_invalid (get body "data")) _ h in
    within (ltb max_data_bytes (py.dumped_bytes found)) found refl rest
  where
    within :
        (b : Bool) (found : Fields)
        → ltb max_data_bytes (py.dumped_bytes found) ≡ b
        → (if b then raise payload_too_large "data exceeds the 256 KiB limit" else ok found) ≡ ok fs
        → py.dumped_bytes fs ≤ max_data_bytes
    within true found e rest = absurd (cc)
    within false found e rest = let same : found ≡ fs = cc in rw (← same) (ltb-false→le _ _ e)

schema_version_of_lem :
    (body : Fields) (v : String) → schema_version_of body ≡ ok v → IsClean 32 (some v)
unfolding schema_version_of
schema_version_of_lem body v h =
    let (given, cleaned, rest) =
      bind-eq-ok
        (clean_str (or_else (get body "schema_version") (str "1")) "schema_version" 32 false) _ h in
    let same : or_default given "1" ≡ v = cc in
    rw (← same) (
      given_or_one given (
        clean_str-IsClean (or_else (get body "schema_version") (str "1")) "schema_version" 32 false
          given cleaned))
  where
    given_or_one : (o : Option String) → IsClean 32 o → IsClean 32 (some (or_default o "1"))
    given_or_one none c = (refl, omega arith)
    given_or_one (some s) c = c

-- The fields that the server sets.
pub record FromServer (ctx : ProducerContext) (ts : Time) (id : String) (env : Envelope)
    : Type 0 where
  pub id_eq : env.id ≡ id
  pub timestamp_eq : env.timestamp ≡ ts
  pub producer_eq : env.producer ≡ ctx.producer
  pub environment_eq : env.environment ≡ ctx.environment
  pub producer_id_eq : env.producer_id ≡ ctx.producer_id
  pub api_key_id_eq : env.api_key_id ≡ ctx.api_key_id

-- `_with_task_fields` touches neither.
finished :
    (py : Python) (ctx : ProducerContext) (ts : Time) (id : String) (b : Bool) (e env : Envelope)
    → IsValid py e
    → FromServer ctx ts id e
    → (if b then ok (with_task_fields py e) else ok e) ≡ ok env
    → IsValid py env × FromServer ctx ts id env
unfolding with_task_fields
finished py ctx ts id true e env v f h =
    let same : with_task_fields py e ≡ env = cc in
    rw (← same) (
      record {
        event_matches = v.event_matches;
        event_size = v.event_size;
        topic_matches = v.topic_matches;
        topic_size = v.topic_size;
        severity_known = v.severity_known;
        payload_fits = v.payload_fits;
        version_clean = v.version_clean;
        source_clean = v.source_clean;
        correlation_clean = v.correlation_clean;
        request_clean = v.request_clean;
        user_clean = v.user_clean;
        organization_clean = v.organization_clean;
        project_clean = v.project_clean;
        idempotency_clean = v.idempotency_clean;
        kind_derived = v.kind_derived;
      },
      record {
        id_eq = f.id_eq;
        timestamp_eq = f.timestamp_eq;
        producer_eq = f.producer_eq;
        environment_eq = f.environment_eq;
        producer_id_eq = f.producer_id_eq;
        api_key_id_eq = f.api_key_id_eq;
      },
    )
finished py ctx ts id false e env v f h = let same : e ≡ env = cc in rw (← same) (v, f)

text_at-IsClean :
    (body : Fields) (key : String) (o : Option String) → text_at body key ≡ ok o → IsClean 200 o
unfolding text_at
text_at-IsClean body key o h = clean_str-IsClean (get body key) key 200 false o h

record CoreIsValid (py : Python) (c : Core) : Type 0 where
  name_matches : matches_event c.name ≡ true
  name_size : size c.name ≤ max_event_name
  topic_matched : matches_topic c.topic ≡ true
  topic_length : size c.topic ≤ max_topic_name
  severity_listed : elem c.severity severities ≡ true
  payload_size : py.dumped_bytes c.payload ≤ max_data_bytes
  version_bound : IsClean 32 (some c.version)

core_of_lem : (py : Python) (body : Fields) (c : Core) → core_of py body ≡ ok c → CoreIsValid py c
unfolding core_of
core_of_lem py body c h =
    let (name, name_ok, h1) = bind-eq-ok (event_name body) _ h in
    let (topic, topic_ok, h2) = bind-eq-ok (topic_name body name) _ h1 in
    let (severity, severity_ok, h3) = bind-eq-ok (severity_of body) _ h2 in
    let (payload, payload_ok, h4) = bind-eq-ok (payload_of py body) _ h3 in
    let (version, version_ok, h5) = bind-eq-ok (schema_version_of body) _ h4 in
    let (matched, fits) = event_name_lem body name name_ok in
    let (topic_matched, topic_fits) = topic_name_lem body name topic fits topic_ok in
    let same : record {
      name = name;
      topic = topic;
      severity = severity;
      payload = payload;
      version = version;
    }
        ≡ c =
      ok-injective h5 in
    rw (← same) (record {
      name_matches = matched;
      name_size = fits;
      topic_matched = topic_matched;
      topic_length = topic_fits;
      severity_listed = severity_of_lem body severity severity_ok;
      payload_size = payload_of_lem py body payload payload_ok;
      version_bound = schema_version_of_lem body version version_ok;
    })

record OptionalIsClean (o : Optional) : Type 0 where
  source : IsClean 200 o.source
  correlation : IsClean 200 o.correlation
  request : IsClean 200 o.request
  user : IsClean 200 o.user
  organization : IsClean 200 o.organization
  project : IsClean 200 o.project
  idempotency : IsClean 200 o.idempotency

optional_of_lem :
    (py : Python) (body : Fields) (o : Optional) → optional_of py body ≡ ok o → OptionalIsClean o
unfolding optional_of
optional_of_lem py body o h =
    let (source, source_ok, h1) = bind-eq-ok (text_at body "source") _ h in
    let (occurred, _, h2) = bind-eq-ok (parse_dt py (get body "occurred_at") "occurred_at") _ h1 in
    let (correlation, correlation_ok, h3) = bind-eq-ok (text_at body "correlation_id") _ h2 in
    let (request, request_ok, h4) = bind-eq-ok (text_at body "request_id") _ h3 in
    let (user, user_ok, h5) = bind-eq-ok (text_at body "user_id") _ h4 in
    let (organization, organization_ok, h6) = bind-eq-ok (text_at body "organization_id") _ h5 in
    let (project, project_ok, h7) = bind-eq-ok (text_at body "project_id") _ h6 in
    let (idempotency, idempotency_ok, h8) = bind-eq-ok (text_at body "idempotency_key") _ h7 in
    let made : Optional = record {
      source = source;
      occurred = occurred;
      correlation = correlation;
      request = request;
      user = user;
      organization = organization;
      project = project;
      idempotency = idempotency;
    } in
    let same : made ≡ o = ok-injective h8 in
    rw (← same) (record {
      source = text_at-IsClean body "source" source source_ok;
      correlation = text_at-IsClean body "correlation_id" correlation correlation_ok;
      request = text_at-IsClean body "request_id" request request_ok;
      user = text_at-IsClean body "user_id" user user_ok;
      organization = text_at-IsClean body "organization_id" organization organization_ok;
      project = text_at-IsClean body "project_id" project project_ok;
      idempotency = text_at-IsClean body "idempotency_key" idempotency idempotency_ok;
    })

build-IsValid :
    (py : Python) (c : Core) (o : Optional) (ctx : ProducerContext) (ts : Time) (id : String)
    → CoreIsValid py c
    → OptionalIsClean o
    → IsValid py (build c o ctx ts id) × FromServer ctx ts id (build c o ctx ts id)
unfolding build
build-IsValid py c o ctx ts id v w = (
  record {
    event_matches = v.name_matches;
    event_size = v.name_size;
    topic_matches = v.topic_matched;
    topic_size = v.topic_length;
    severity_known = v.severity_listed;
    payload_fits = v.payload_size;
    version_clean = v.version_bound;
    source_clean = w.source;
    correlation_clean = w.correlation;
    request_clean = w.request;
    user_clean = w.user;
    organization_clean = w.organization;
    project_clean = w.project;
    idempotency_clean = w.idempotency;
    kind_derived = refl;
  },
  record {
    id_eq = refl;
    timestamp_eq = refl;
    producer_eq = refl;
    environment_eq = refl;
    producer_id_eq = refl;
    api_key_id_eq = refl;
  },
)

ingest_object_lem :
    (py : Python) (body : Fields) (ctx : ProducerContext) (ts : Time) (id : String) (env : Envelope)
    → ingest_object py body ctx ts id ≡ ok env
    → IsValid py env × FromServer ctx ts id env
unfolding ingest_object
ingest_object_lem py body ctx ts id env h =
    let (core, core_ok, h1) = bind-eq-ok (core_of py body) _ h in
    let (opt, opt_ok, h2) = bind-eq-ok (optional_of py body) _ h1 in
    let (v, f) =
      build-IsValid py core opt ctx ts id (core_of_lem py body core core_ok)
        (optional_of_lem py body opt opt_ok) in
    finished py ctx ts id (is_task (build core opt ctx ts id).kind) (build core opt ctx ts id) env v
      f h2

-- Whatever the body of a request is: an envelope that is accepted has an event name and a topic of
-- the right form and length, a known severity, a payload and optional texts within their bounds and
-- not empty, and the kind of its name.
pub ingest-IsValid :
    (py : Python) (body : Json) (ctx : ProducerContext) (ts : Time) (id : String) (env : Envelope)
    → ingest py body ctx ts id ≡ ok env
    → IsValid py env
unfolding ingest
ingest-IsValid py (obj body) ctx ts id env h = (ingest_object_lem py body ctx ts id env h).0
ingest-IsValid py _ ctx ts id env h = absurd (cc)

-- Whatever the body of a request is: the id, the timestamp, the producer, the environment and the key
-- of an accepted envelope are those that the server gave, so a producer cannot set them.
pub ingest-FromServer :
    (py : Python) (body : Json) (ctx : ProducerContext) (ts : Time) (id : String) (env : Envelope)
    → ingest py body ctx ts id ≡ ok env
    → FromServer ctx ts id env
unfolding ingest
ingest-FromServer py (obj body) ctx ts id env h = (ingest_object_lem py body ctx ts id env h).1
ingest-FromServer py _ ctx ts id env h = absurd (cc)
