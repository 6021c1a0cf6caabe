-- ===== src/Realtime/Protocol.antt =====
-- realtime/protocol.py: the frames of a connection, parsed and built.
use Prim.Native.String
use beacn.Base.{
  ℕ, Bool, false, ◌&&◌, ◌||◌, not, String, List, [], ◌∷◌, Option, none, some, is_empty, elem, ◌==◌,
  if◌then◌else◌,
}
use beacn.Base.Json.{Json, null, bool, num, str, arr, obj, Fields, get, is_true}
use beacn.Events.Wire.{Wire, if_text}

abbrev pub client_types : List String
client_types = "subscribe" ∷ "unsubscribe" ∷ "replay" ∷ "ack" ∷ "ping" ∷ []

pub record ClientFrame : Type 0 where
  pub type : String
  pub topic : Option String
  pub since : Option String
  pub id : Option String
  pub ref : Option String

-- How `ClientFrame.parse` ends: with a frame, with `ProtocolError(code, message)`, or with the
-- TypeError of a set that is asked for a list or a dict.
pub data Parsed : Type 0 where
  parsed : ClientFrame → Parsed
  protocol_error : (code message : String) → Parsed
  type_error : Parsed

-- `v if isinstance(v, str) else None`
abbrev pub text_or_none : Json → Option String
text_or_none (str s) = some s
text_or_none v = none

-- `isinstance(v, str) and v`
abbrev pub is_name : Json → Bool
is_name (str s) = not (is_empty s)
is_name v = false

abbrev pub needs_topic : String → Bool
needs_topic type = type == "subscribe" || type == "unsubscribe" || type == "replay"

-- The checks behind that of the type.
unfoldable pub parse_typed : String → Fields → Parsed
parse_typed type raw =
    if needs_topic type && not (is_name (get raw "topic"))
    then protocol_error "invalid" (String.◌++◌ type " requires a topic")
    else if type == "ack" && not (is_true (get raw "id"))
    then protocol_error "invalid" "ack requires an id"
    else parsed (record {
      type = type;
      topic = text_or_none (get raw "topic");
      since = text_or_none (get raw "since");
      id = text_or_none (get raw "id");
      ref = text_or_none (get raw "ref");
    })

-- `repr` is Python's.
module _ (repr : Json → String) where
  abbrev unknown : Json → Parsed
  unknown type = protocol_error "invalid" (String.◌++◌ "unknown frame type " (repr type))

  abbrev pub parse_type : Json → Fields → Parsed
  parse_type (str s) raw = if elem s client_types then parse_typed s raw else unknown (str s)
  parse_type (arr vs) raw = type_error
  parse_type (obj fs) raw = type_error
  parse_type null raw = unknown null
  parse_type (bool b) raw = unknown (bool b)
  parse_type (num n d) raw = unknown (num n d)

  -- `ClientFrame.parse(raw)`
  unfoldable pub parse : Json → Parsed
  parse (obj raw) = parse_type (get raw "type") raw
  parse raw = protocol_error "invalid" "frame must be a JSON object"

-- What the server sends. A key that is left out of the dict is none.
pub data ServerFrame : Type 0 where
  welcome : (connection_id : String) (heartbeat_ms : ℕ) → ServerFrame
  subscribed : (topic : String) (ref : Option String) → ServerFrame
  unsubscribed : (topic : String) → ServerFrame
  event : Wire → ServerFrame
  replay_done :
      (topic : String) (count : ℕ) (truncated : Bool) (next_since : Option String) → ServerFrame
  error : (code message : String) (topic ref : Option String) → ServerFrame
  pong : ServerFrame

-- `subscribed(topic, ref)`
unfoldable pub subscribed_frame : String → Option String → ServerFrame
subscribed_frame topic ref = subscribed topic (if_text ref)

-- `error_frame(code, message, topic=topic, ref=ref)`
unfoldable pub error_frame : String → String → Option String → Option String → ServerFrame
error_frame code message topic ref = error code message (if_text topic) (if_text ref)
