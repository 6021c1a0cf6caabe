-- ===== src/Realtime/Delivery.antt =====
-- `Realtime` of realtime/__init__.py: an event that the bus hands over is broadcast by the hub, and the
-- sessions of its topic take note. `InProcessBus.publish` of realtime/bus.py hands it over at once.
use beacn.Base.{
  ℕ, zero, suc, ◌+◌, ◌≡◌, refl, ap, ◌∙◌, eq_refl, ◌||◌, Option, Bool-cases, inl, inr, true, String,
  List, [], ◌∷◌, ◌++◌, elem, ltb, if◌then◌else◌, map,
}
use beacn.Events.Wire.{Wire}
use beacn.Realtime.Hub.{DeliveryReport, HubOps, HubLaws}
use beacn.Realtime.Session.{
  Session, Backing, World, Exec, going, raised, ◌>>=◌, state_of, authorize, send, forbidden, joined,
  going_saved, finish_subscribe, subscribe,
}
use beacn.Base.Json.{Json}
use beacn.Realtime.Protocol.{ServerFrame, subscribed_frame}

pub record Realtime (Hub : Type 0) : Type 0 where
  pub hub : Hub
  pub sessions : List Session
  pub events_delivered : ℕ
  pub events_dropped : ℕ
  pub frames_sent : ℕ

-- `session.note_delivery(report)`
unfoldable pub note_delivery : DeliveryReport → Session → Session
note_delivery report s = record s {
  events_sent = s.events_sent + 1;
  events_dropped = if ltb 0 report.dropped then s.events_dropped + 1 else s.events_dropped;
}

abbrev pub note_if : String → DeliveryReport → Session → Session
note_if topic report s = if elem topic s.topics then note_delivery report s else s

module _ {Hub : Type 0} (ops : HubOps Hub) where
  -- `_deliver_local(topic, wire)`; an event from the bus is never framed yet.
  unfoldable pub deliver_local : String → Wire → Realtime Hub → Realtime Hub
  deliver_local topic wire rt =
      let report = ops.report rt.hub topic wire in
      record {
        hub = ops.broadcast rt.hub topic wire;
        sessions = map (note_if topic report) rt.sessions;
        events_delivered = rt.events_delivered + report.delivered;
        events_dropped = rt.events_dropped + report.dropped;
        frames_sent = rt.frames_sent + report.delivered;
      }

  -- `rt.publish(environment, topic, wire)` on an `InProcessBus`
  unfoldable pub publish : String → String → Wire → Realtime Hub → Realtime Hub
  publish environment topic wire rt = deliver_local topic wire rt

  send-hub :
      (repr : Json → String) (frame : ServerFrame) (w : World Hub)
      → (state_of (send ops repr frame w)).hub ≡ w.hub
  unfolding send
  send-hub repr frame w = go w.session.sends_left
    where
      go :
          (n : ℕ)
          → (state_of (elim n as (λ x. Exec (World Hub)) [
            | zero ↦ raised w
            | suc n ↦ going (record w {
              session = record w.session { sent = w.session.sent ++ frame ∷ []; sends_left = n };
            })
          ])).hub
            ≡ w.hub
      go zero = refl
      go (suc n) = refl

  own_join :
      (laws : HubLaws ops) (topic : String) (w : World Hub)
      → ops.is_member (ops.join w.hub w.session.connection_id topic) w.session.connection_id topic
        ≡ true
  own_join laws topic w =
      laws.member-join w.hub w.session.connection_id topic w.session.connection_id topic
      ∙ rw (eq_refl w.session.connection_id, eq_refl topic) refl

  -- A connection joins a topic if the grant may, of its own environment.
  member-subscribe :
      (laws : HubLaws ops) (repr : Json → String) (backing : Backing) (topic : String)
      (ref : Option String) (w : World Hub)
      → ops.is_member
          (state_of (subscribe ops repr backing topic ref w)).hub
          w.session.connection_id
          topic
        ≡ (authorize backing w.session.grant topic
            || ops.is_member w.hub w.session.connection_id topic)
  unfolding subscribe finish_subscribe
  member-subscribe laws repr backing topic ref w =
      elim (Bool-cases (authorize backing w.session.grant topic)) [
        | inl may ↦ rw may (
            ap (λ h. ops.is_member h w.session.connection_id topic)
              (saved-hub (send ops repr (subscribed_frame topic ref) (joined ops repr topic w))
                ∙ send-hub repr (subscribed_frame topic ref) (joined ops repr topic w))
            ∙ own_join laws topic w)
        | inr may_not ↦ rw may_not (
            ap (λ h. ops.is_member h w.session.connection_id topic)
              (send-hub repr (forbidden ops repr topic ref) w))
      ]
    where
      saved-hub :
          (e : Exec (World Hub)) → (state_of (e >>= going_saved ops repr)).hub ≡ (state_of e).hub
      saved-hub (going w) = refl
      saved-hub (raised w) = refl

  -- A connection that asks to subscribe to a topic is offered an event that is published to a topic of
  -- that name afterwards, in whichever environment, exactly if its grant may join the topic in the
  -- grant's own environment, or if it had joined it before: the environment of the event makes no
  -- difference. The hub keeps its laws.
  pub subscribe-publish :
      (laws : HubLaws ops) (repr : Json → String) (backing : Backing) (topic environment : String)
      (ref : Option String) (wire : Wire) (w : World Hub) (rt : Realtime Hub)
      → rt.hub ≡ (state_of (subscribe ops repr backing topic ref w)).hub
      → ops.offered (publish environment topic wire rt).hub w.session.connection_id ≡ (
          if authorize backing w.session.grant topic
            || ops.is_member w.hub w.session.connection_id topic
          then ops.offered rt.hub w.session.connection_id ++ wire ∷ []
          else ops.offered rt.hub w.session.connection_id)
  unfolding publish deliver_local
  subscribe-publish laws repr backing topic environment ref wire w rt behind =
      laws.offered-broadcast rt.hub topic wire w.session.connection_id
      ∙ ap
          (λ b.
            if b
            then ops.offered rt.hub w.session.connection_id ++ wire ∷ []
            else ops.offered rt.hub w.session.connection_id)
          (ap (λ h. ops.is_member h w.session.connection_id topic) behind
            ∙ member-subscribe laws repr backing topic ref w)
