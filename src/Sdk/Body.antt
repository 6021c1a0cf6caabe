-- ===== src/Sdk/Body.antt =====
-- The bodies that the client of sdk/python/beacn.py sends, and what it makes of the answers.
use Prim.Native.String
use beacn.Base.{
  ℕ, ◌+◌, Bool, true, false, String, List, [], ◌∷◌, Option, none, some, or_default, is_empty,
  if◌then◌else◌,
}
use beacn.Base.Json.{
  Json, null, num, str, arr, obj, Items, nil, cons, Fields, end, field, get, get?, or_else,
}
use beacn.Base.Int.{pos}

-- `d[key] = v` for a key that `d` does not have.
unfoldable pub add_field : String → Json → Fields → Fields
add_field key v end = field key v end
add_field key v (field k w fs) = field k w (add_field key v fs)

-- `d.setdefault(key, v)`
unfoldable pub set_default : String → Json → Fields → Fields
set_default key v fs = elim (get? fs key) [ none ↦ add_field key v fs | some w ↦ fs ]

abbrev is_null : Json → Bool
is_null null = true
is_null v = false

abbrev optional_fields : List String
optional_fields =
    "source" ∷ "occurred_at" ∷ "correlation_id" ∷ "request_id" ∷ "user_id" ∷ "organization_id"
    ∷ "project_id" ∷ "schema_version" ∷ "severity" ∷ "idempotency_key" ∷ []

-- `body[field] = kw[field]`, if it is there and not None.
abbrev copy_field : String → Option Json → Fields → Fields
copy_field key none body = body
copy_field key (some v) body = if is_null v then body else field key v body

unfoldable pub copy_fields : List String → Fields → Fields
copy_fields [] kw = end
copy_fields (key ∷ keys) kw = copy_field key (get? kw key) (copy_fields keys kw)

abbrev with_topic : Option String → Fields → Fields
with_topic topic body =
    if is_empty (or_default topic "") then body else field "topic" (str (or_default topic "")) body

abbrev with_data : Option Json → Fields → Fields
with_data none body = body
with_data (some d) body = field "data" d body

-- `_build_body(event, topic, data, kw)`, with `data` none for None.
unfoldable pub build_body : String → Option String → Option Json → Fields → Fields
build_body event topic given kw =
    field "event" (str event) (with_topic topic (with_data given (copy_fields optional_fields kw)))

-- The defaults of `_Config` that a publication takes.
pub record Defaults : Type 0 where
  pub default_topic : Option String
  pub default_source : Option String

-- `topic or default_topic`
abbrev pub topic_or : Option String → Option String → Option String
topic_or topic default_topic = if is_empty (or_default topic "") then default_topic else topic

-- The body of `publish(event, topic, data, **kw)`.
unfoldable pub publish_body : Defaults → String → Option String → Option Json → Fields → Fields
publish_body defaults event topic given kw =
    let body = build_body event (topic_or topic defaults.default_topic) given kw in
    if is_empty (or_default defaults.default_source "")
    then body
    else set_default "source" (str (or_default defaults.default_source "")) body

abbrev pub item_with_topic : Option String → Fields → Fields
item_with_topic default_topic item =
    if is_empty (or_default default_topic "")
    then item
    else set_default "topic" (str (or_default default_topic "")) item

-- `str_of_int` is the decimal text of an index.
module _ (str_of_int : ℕ → String) where
  -- `"%s:%d" % (key, i)`
  abbrev pub item_key : String → ℕ → String
  item_key key i = String.◌++◌ key (String.◌++◌ ":" (str_of_int i))

  abbrev pub item_with_key : String → ℕ → Fields → Fields
  item_with_key key i item =
      if is_empty key then item else set_default "idempotency_key" (str (item_key key i)) item

  unfoldable pub batch_items : Option String → String → ℕ → List Fields → Items
  batch_items default_topic key i [] = nil
  batch_items default_topic key i (item ∷ more) =
      cons (obj (item_with_key key i (item_with_topic default_topic item)))
        (batch_items default_topic key (i + 1) more)

  -- The body of `Beacn.publish_batch(events, idempotency_key)`.
  unfoldable pub batch_body : Defaults → Option String → List Fields → Json
  batch_body defaults key events =
      obj
        (field "events" (arr (batch_items defaults.default_topic (or_default key "") 0 events)) end)

  -- The body of `AsyncBeacn.publish_batch(events, idempotency_key)`.
  unfoldable pub batch_body_async : Option String → List Fields → Json
  batch_body_async key events =
      obj (field "events" (arr (batch_items none (or_default key "") 0 events)) end)

abbrev with_since : Option String → Fields → Fields
with_since none fs = fs
with_since (some s) fs = field "since" (str s) fs

abbrev limit_field : Option ℕ → Fields
limit_field none = end
limit_field (some n) = field "limit" (num (pos n) 0) end

-- The body of `replay(topic, since, limit)`.
unfoldable pub replay_body : String → Option String → Option ℕ → Json
replay_body topic since limit =
    obj (field "topic" (str topic) (with_since since (limit_field limit)))

abbrev pub texts : List String → Items
texts [] = nil
texts (s ∷ more) = cons (str s) (texts more)

-- The body of `_realtime_token(topics)`.
unfoldable pub token_body : List String → Json
token_body topics = obj (field "topic_patterns" (arr (texts topics)) end)

-- `Event`; `get` of a key that is missing is None.
pub record Event : Type 0 where
  pub raw : Fields
  pub id : Json
  pub event : Json
  pub topic : Json
  pub kind : Json
  pub producer : Json
  pub environment : Json
  pub timestamp : Json
  pub severity : Json
  pub schema_version : Json
  pub content : Json
  pub seq : Json

-- `payload.get(key, default)`
abbrev pub get_or : Fields → String → Json → Json
get_or fs key d = or_default (get? fs key) d

-- `Event(payload)`
unfoldable pub event_of : Fields → Event
event_of payload = record {
  raw = payload;
  id = get payload "id";
  event = get payload "event";
  topic = get payload "topic";
  kind = get_or payload "kind" (str "event");
  producer = get payload "producer";
  environment = get payload "environment";
  timestamp = get payload "timestamp";
  severity = get_or payload "severity" (str "info");
  schema_version = get_or payload "schema_version" (str "1");
  content = or_else (get_or payload "data" (obj end)) (obj end);
  seq = get payload "seq";
}

-- `PublishResult(payload)`
pub record PublishResult : Type 0 where
  pub accepted : Json
  pub deduplicated : Json
  pub events : Json
  pub rejected : Json

unfoldable pub publish_result : Fields → PublishResult
publish_result payload = record {
  accepted = get_or payload "accepted" (num (pos 0) 0);
  deduplicated = get_or payload "deduplicated" (num (pos 0) 0);
  events = get_or payload "events" (arr nil);
  rejected = get_or payload "rejected" (arr nil);
}
