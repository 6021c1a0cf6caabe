-- ===== src/Realtime/Session/Membership.antt =====
-- What a frame can do to the memberships of a connection: nothing, one authorized join, or one leave.
use beacn.Base.{
  ℕ, zero, suc, ◌≡◌, refl, ◌∙◌, inl, inr, Bool, true, String, List, [], ◌∷◌, ◌++◌, Option, none,
  or_default, ◌==◌, Bool-cases,
}
use beacn.Base.Json.{Json}
use beacn.Topics.{Grant}
use beacn.Events.Wire.{Wire}
use beacn.Realtime.Protocol.{
  ClientFrame, Parsed, parsed, protocol_error, type_error, parse, ServerFrame, subscribed_frame,
  error_frame,
}
use beacn.Realtime.Hub.{HubOps}
use beacn.Replay.{ReplayResult}
use beacn.Realtime.Session.{
  joined, left, going_saved, counted, replay_for, done_frame, Backing, World, Exec, going, raised,
  state_of, ◌>>=◌, authorize, add_topic, discard, send, forbidden, finish_subscribe, subscribe,
  unsubscribe, send_events, do_replay, handle_frame, handle_parsed, handle,
}

-- The part of the state that says who is where.
pub record Core (Hub : Type 0) : Type 0 where
  pub hub : Hub
  pub registered : List String
  pub connection_id : String
  pub grant : Grant
  pub topics : List String
  pub closing : Bool

abbrev pub core : {Hub : Type 0} → World Hub → Core Hub
core w = record {
  hub = w.hub;
  registered = w.registered;
  connection_id = w.session.connection_id;
  grant = w.session.grant;
  topics = w.session.topics;
  closing = w.session.closing;
}

module _ {Hub : Type 0} (ops : HubOps Hub) where
  abbrev pub join_core : String → Core Hub → Core Hub
  join_core t c = record c { hub = ops.join c.hub c.connection_id t; topics = add_topic t c.topics }

  abbrev pub leave_core : String → Core Hub → Core Hub
  leave_core t c = record c { hub = ops.leave c.hub c.connection_id t; topics = discard t c.topics }

  -- The steps that the contract of a session allows.
  pub data CoreStep (backing : Backing) (c c' : Core Hub) : Type 0 where
    stays : c' ≡ c → CoreStep backing c c'
    joins :
        (t : String)
        → authorize backing c.grant t ≡ true
        → c' ≡ join_core t c
        → CoreStep backing c c'
    leaves : (t : String) → c' ≡ leave_core t c → CoreStep backing c c'

  module _ (repr : Json → String) where
    pub core-send :
        (frame : ServerFrame) (w : World Hub) → core (state_of (send ops repr frame w)) ≡ core w
    unfolding send
    core-send frame w = go w.session.sends_left
      where
        go :
            (n : ℕ)
            → core (
                state_of (elim n as (λ k. Exec (World Hub)) [
                  | zero ↦ raised w
                  | suc k ↦ going (record w {
                    session = record w.session {
                      sent = w.session.sent ++ frame ∷ [];
                      sends_left = k;
                    };
                  })
                ]))
              ≡ core w
        go zero = refl
        go (suc k) = refl

    -- What follows a call and touches no membership leaves them as the call did.
    core-bind :
        (m : Exec (World Hub)) (f : World Hub → Exec (World Hub)) (c : Core Hub)
        → core (state_of m) ≡ c
        → ((w : World Hub) → core (state_of (f w)) ≡ core w)
        → core (state_of (m >>= f)) ≡ c
    core-bind (going w) f c h k = k w ∙ h
    core-bind (raised w) f c h k = h

    core-send_events :
        (wires : List Wire) (w : World Hub)
        → core (state_of (send_events ops repr wires w)) ≡ core w
    unfolding send_events
    core-send_events [] w = refl
    core-send_events (wire ∷ wires) w =
        core-bind (send ops repr (ServerFrame.event wire) w)
          (λ w'. send_events ops repr wires (counted ops repr w')) (core w)
          (core-send (ServerFrame.event wire) w)
          (λ w'. core-send_events wires (counted ops repr w'))

    pub finish_subscribe-core :
        (t : String) (ref : Option String) (w : World Hub)
        → core (state_of (finish_subscribe ops repr t ref w)) ≡ join_core t (core w)
    unfolding finish_subscribe
    finish_subscribe-core t ref w =
        core-bind (send ops repr (subscribed_frame t ref) (joined ops repr t w))
          (going_saved ops repr) (join_core t (core w))
          (core-send (subscribed_frame t ref) (joined ops repr t w)) (λ w'. refl)

    unsubscribe-core :
        (t : String) (w : World Hub)
        → core (state_of (unsubscribe ops repr t w)) ≡ leave_core t (core w)
    unfolding unsubscribe
    unsubscribe-core t w =
        core-bind (send ops repr (ServerFrame.unsubscribed t) (left ops repr t w))
          (going_saved ops repr) (leave_core t (core w))
          (core-send (ServerFrame.unsubscribed t) (left ops repr t w)) (λ w'. refl)

    subscribe-CoreStep :
        (backing : Backing) (t : String) (ref : Option String) (w : World Hub)
        → CoreStep backing (core w) (core (state_of (subscribe ops repr backing t ref w)))
    unfolding subscribe
    subscribe-CoreStep backing t ref w = elim (Bool-cases (authorize backing w.session.grant t)) [
      | inl may ↦ rw may (joins t may (finish_subscribe-core t ref w))
      | inr barred ↦ rw barred (stays (core-send (forbidden ops repr t ref) w))
    ]

    replay-core :
        (t : String) (result : ReplayResult) (w : World Hub)
        → core (
            state_of (
              send_events ops repr result.events w
              >>= send ops repr (done_frame ops repr t result)))
          ≡ core w
    replay-core t result w =
        core-bind (send_events ops repr result.events w)
          (send ops repr (done_frame ops repr t result)) (core w) (core-send_events result.events w)
          (core-send (done_frame ops repr t result))

    do_replay-CoreStep :
        (backing : Backing) (t : String) (since : Option String) (w : World Hub)
        → CoreStep backing (core w) (core (state_of (do_replay ops repr backing t since w)))
    unfolding do_replay
    do_replay-CoreStep backing t since w = elim (Bool-cases (authorize backing w.session.grant t)) [
      | inl may ↦
          rw may (stays (replay-core t (replay_for ops repr backing w.session.grant t since) w))
      | inr barred ↦ rw barred (stays (core-send (forbidden ops repr t none) w))
    ]

    handle_frame-CoreStep :
        (backing : Backing) (frame : ClientFrame) (w : World Hub)
        → CoreStep backing (core w) (core (state_of (handle_frame ops repr backing frame w)))
    unfolding handle_frame
    handle_frame-CoreStep backing frame w = elim (Bool-cases (frame.type == "ping")) [
      | inl ping ↦ rw ping (stays (core-send ServerFrame.pong w))
      | inr e1 ↦ elim (Bool-cases (frame.type == "subscribe")) [
        | inl sub ↦
            rw (e1, sub) (subscribe-CoreStep backing (or_default frame.topic "") frame.ref w)
        | inr e2 ↦ elim (Bool-cases (frame.type == "unsubscribe")) [
          | inl unsub ↦
              rw (e1, e2, unsub)
                (leaves (or_default frame.topic "")
                  (unsubscribe-core (or_default frame.topic "") w))
          | inr e3 ↦ elim (Bool-cases (frame.type == "replay")) [
            | inl again ↦
                rw (e1, e2, e3, again)
                  (do_replay-CoreStep backing (or_default frame.topic "") frame.since w)
            | inr e4 ↦ elim (Bool-cases (frame.type == "ack")) [
              | inl ack ↦ rw (e1, e2, e3, e4, ack) (stays refl)
              | inr e5 ↦ rw (e1, e2, e3, e4, e5) (stays refl)
            ]
          ]
        ]
      ]
    ]

    -- Whatever a client sends, well formed or not, and whichever of the answers the socket refuses:
    -- what it does to the hub, the registry and the session's topics is one step of the contract. It
    -- joins one topic that the grant is authorized for at that moment, or leaves one topic, or does
    -- nothing; the grant and the identity of the connection stay.
    pub handle-CoreStep :
        (backing : Backing) (raw : Json) (w : World Hub)
        → CoreStep backing (core w) (core (state_of (handle ops repr backing raw w)))
    unfolding handle handle_parsed
    handle-CoreStep backing raw w = go (parse repr raw)
      where
        go :
            (p : Parsed)
            → CoreStep backing (core w) (core (state_of (handle_parsed ops repr backing p w)))
        go (parsed frame) = handle_frame-CoreStep backing frame w
        go (protocol_error code message) = stays (core-send (error_frame code message none none) w)
        go type_error = stays refl
