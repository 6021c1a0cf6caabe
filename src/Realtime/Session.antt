-- ===== src/Realtime/Session.antt =====
-- realtime/session.py: one connection, from its welcome to its shutdown. The socket takes so many
-- frames and then raises; a call that raises ends with the state that it leaves.
pub mod Membership
use Prim.Native.String
use beacn.Base.{
  ℕ, zero, suc, ◌+◌, Bool, true, false, ◌&&◌, not, String, List, [], ◌∷◌, ◌++◌, Option, none, some,
  or_default, is_empty, elem, find, keep, str_ltb, ◌==◌, length, if◌then◌else◌,
}
use beacn.Base.Json.{Json}
use beacn.Topics.{Grant, TopicSpec, allowed, authorize_subscription}
use beacn.Events.Wire.{Wire}
use beacn.Store.{Table}
use beacn.Replay.{ReplayResult, replay}
use beacn.Realtime.Protocol.{
  ClientFrame, Parsed, parsed, protocol_error, type_error, parse, ServerFrame, welcome,
  unsubscribed, event, replay_done, pong, subscribed_frame, error_frame,
}
use beacn.Realtime.Hub.{HubOps}

-- The columns of the connection's row that the session writes after it has opened it.
pub record ConnectionRow : Type 0 where
  pub subscriptions : List String
  pub status : String
  pub close_code : Option ℕ
  pub close_reason : Option String
  pub events_sent : ℕ
  pub events_dropped : ℕ

pub record Session : Type 0 where
  pub connection_id : String
  pub grant : Grant
  pub topics : List String
  pub events_sent : ℕ
  pub events_dropped : ℕ
  pub closing : Bool
  pub row : ConnectionRow
  pub acknowledged : List (Option String)
  -- The frames that the socket has taken, and how many more it takes before it raises.
  pub sent : List ServerFrame
  pub sends_left : ℕ

-- What a session reads of the database, and of the configuration, at one moment.
pub record Backing : Type 0 where
  pub topics : List TopicSpec
  pub events : Table
  pub replay_max_events : ℕ

pub record World (Hub : Type 0) : Type 0 where
  pub hub : Hub
  pub registered : List String
  pub session : Session

-- How a call ends: it returns, or it raises.
pub data Exec (A : Type 0) : Type 0 where
  going : A → Exec A
  raised : A → Exec A

abbrev pub state_of : {A : Type 0} → Exec A → A
state_of (going a) = a
state_of (raised a) = a

infixl 5 ◌>>=◌
abbrev pub ◌>>=◌ : {A : Type 0} → Exec A → (A → Exec A) → Exec A
going a >>= f = f a
raised a >>= f = raised a

-- `row.environment == environment and row.name == topic`
abbrev pub is_row : String → String → TopicSpec → Bool
is_row environment topic row = elim row.environment [
  | none ↦ false
  | some own ↦ own == environment && row.name == topic
]

-- `_authorize(topic)`
unfoldable pub authorize : Backing → Grant → String → Bool
authorize backing grant topic =
    allowed
      (authorize_subscription topic grant (find (is_row grant.environment topic) backing.topics))

-- `self.topics.add(topic)` and `self.topics.discard(topic)`
abbrev pub add_topic : String → List String → List String
add_topic topic topics = if elem topic topics then topics else topic ∷ topics

abbrev pub discard : String → List String → List String
discard topic topics = keep (λ t. not (topic == t)) topics

-- `sorted(self.topics)`
abbrev insert : String → List String → List String
insert t [] = t ∷ []
insert t (u ∷ us) = let rest = insert t us in if str_ltb u t then u ∷ rest else t ∷ u ∷ us

unfoldable pub sorted : List String → List String
sorted [] = []
sorted (t ∷ ts) = insert t (sorted ts)

module _ {Hub : Type 0} (ops : HubOps Hub) (repr : Json → String) where
  -- `await self.socket.send_json(frame)`
  unfoldable pub send : ServerFrame → World Hub → Exec (World Hub)
  send frame w = elim w.session.sends_left [
    | zero ↦ raised w
    | suc n ↦ going (record w {
      session = record w.session { sent = w.session.sent ++ frame ∷ []; sends_left = n };
    })
  ]

  -- `_save_subs()`
  abbrev pub save_subs : World Hub → World Hub
  save_subs w = record w {
    session = record w.session {
      row = record w.session.row { subscriptions = sorted w.session.topics };
    };
  }

  abbrev pub forbidden : String → Option String → ServerFrame
  forbidden topic ref =
      error_frame "forbidden" (String.◌++◌ "not allowed on topic " topic) (some topic) ref

  abbrev pub joined : String → World Hub → World Hub
  joined topic w = record w {
    hub = ops.join w.hub w.session.connection_id topic;
    session = record w.session { topics = add_topic topic w.session.topics };
  }

  abbrev pub left : String → World Hub → World Hub
  left topic w = record w {
    hub = ops.leave w.hub w.session.connection_id topic;
    session = record w.session { topics = discard topic w.session.topics };
  }

  abbrev pub going_saved : World Hub → Exec (World Hub)
  going_saved w = going (save_subs w)

  abbrev pub counted : World Hub → World Hub
  counted w = record w { session = record w.session { events_sent = w.session.events_sent + 1 } }

  -- A subscription behind its authorization.
  unfoldable pub finish_subscribe : String → Option String → World Hub → Exec (World Hub)
  finish_subscribe topic ref w = send (subscribed_frame topic ref) (joined topic w) >>= going_saved

  unfoldable pub subscribe : Backing → String → Option String → World Hub → Exec (World Hub)
  subscribe backing topic ref w =
      if authorize backing w.session.grant topic
      then finish_subscribe topic ref w
      else send (forbidden topic ref) w

  unfoldable pub unsubscribe : String → World Hub → Exec (World Hub)
  unsubscribe topic w = send (unsubscribed topic) (left topic w) >>= going_saved

  -- The events of a replay, each counted once it is sent.
  unfoldable pub send_events : List Wire → World Hub → Exec (World Hub)
  send_events [] w = going w
  send_events (wire ∷ wires) w = send (event wire) w >>= λ w'. send_events wires (counted w')

  -- `_do_replay(frame)`
  abbrev pub replay_for : Backing → Grant → String → Option String → ReplayResult
  replay_for backing grant topic since =
      replay backing.replay_max_events false grant.environment topic since none backing.events

  abbrev pub done_frame : String → ReplayResult → ServerFrame
  done_frame topic result =
      replay_done topic (length result.events) result.truncated result.next_since

  unfoldable pub do_replay : Backing → String → Option String → World Hub → Exec (World Hub)
  do_replay backing topic since w =
      let result = replay_for backing w.session.grant topic since in
      if authorize backing w.session.grant topic
      then send_events result.events w >>= send (done_frame topic result)
      else send (forbidden topic none) w

  -- `_record_ack(event_id)`: what the update asks for.
  abbrev pub record_ack : Option String → World Hub → Exec (World Hub)
  record_ack event_id w = going (record w {
    session = record w.session { acknowledged = w.session.acknowledged ++ event_id ∷ [] };
  })

  -- `_handle(raw)` of a frame that was parsed; a frame that needs a topic has one.
  unfoldable pub handle_frame : Backing → ClientFrame → World Hub → Exec (World Hub)
  handle_frame backing frame w =
      if frame.type == "ping"
      then send pong w
      else if frame.type == "subscribe"
      then subscribe backing (or_default frame.topic "") frame.ref w
      else if frame.type == "unsubscribe"
      then unsubscribe (or_default frame.topic "") w
      else if frame.type == "replay"
      then do_replay backing (or_default frame.topic "") frame.since w
      else if frame.type == "ack"
      then record_ack frame.id w
      else going w

  unfoldable pub handle_parsed : Backing → Parsed → World Hub → Exec (World Hub)
  handle_parsed backing (parsed frame) w = handle_frame backing frame w
  handle_parsed backing (protocol_error code message) w =
      send (error_frame code message none none) w
  handle_parsed backing type_error w = raised w

  -- `_handle(raw)`
  unfoldable pub handle : Backing → Json → World Hub → Exec (World Hub)
  handle backing raw w = handle_parsed backing (parse repr raw) w
