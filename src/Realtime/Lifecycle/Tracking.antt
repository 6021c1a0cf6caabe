-- ===== src/Realtime/Lifecycle/Tracking.antt =====
-- What the loop of a connection keeps: the hub knows of no membership that the session does not know of.
use beacn.Base.{
  ◌≡◌, refl, ap, sym, subst, ◌∙◌, true, false, ◌&&◌, ◌||◌, not, String, List, [], ◌∷◌, none, arith,
  elem, ◌==◌, eq_iff, eq_refl,
}
use beacn.Base.Json.{Json}
use beacn.Realtime.Protocol.{error_frame}
use beacn.Realtime.Hub.{HubOps, HubLaws}
use beacn.Realtime.Session.{
  Backing, World, Exec, going, raised, state_of, add_topic, discard, send, handle,
}
use beacn.Realtime.Session.Membership.{
  Core, core, join_core, leave_core, CoreStep, stays, joins, leaves, core-send, handle-CoreStep,
}
use beacn.Realtime.Lifecycle.{
  Input, frame, deadline, silence, disconnect, unregister, leave_all, serve,
}

elem-add_topic : (t u : String) (ts : List String) → elem u (add_topic t ts) ≡ (u == t || elem u ts)
elem-add_topic t u ts = ground (arith, eq_iff u t)

elem-discard :
    (t u : String) (ts : List String) → elem u (discard t ts) ≡ (not (t == u) && elem u ts)
elem-discard t u [] = ground arith
elem-discard t u (v ∷ ts) = ground (arith, eq_iff t v, eq_iff u v, eq_iff t u, elem-discard t u ts)

pub elem-unregister : (id : String) (ids : List String) → elem id (unregister id ids) ≡ false
elem-unregister id [] = refl
elem-unregister id (i ∷ ids) = ground (arith, eq_iff id i, elem-unregister id ids)

module _ {Hub : Type 0} (ops : HubOps Hub) (laws : HubLaws ops) where
  -- The hub knows of no membership that the session does not know of.
  abbrev pub Tracks : Core Hub → Type 0
  Tracks c = (t : String) → ops.is_member c.hub c.connection_id t ≡ true → elem t c.topics ≡ true

  -- What a connection does leaves alone.
  pub record Kept (c c' : Core Hub) : Type 0 where
    pub same_id : c'.connection_id ≡ c.connection_id
    pub same_closing : c'.closing ≡ c.closing
    pub others :
        (q t : String)
        → (c.connection_id == q) ≡ false
        → ops.is_member c'.hub q t ≡ ops.is_member c.hub q t

  pub same-Kept : (c c' : Core Hub) → c' ≡ c → Kept c c'
  same-Kept c c' e = record {
    same_id = ap (λ d. d.connection_id) e;
    same_closing = ap (λ d. d.closing) e;
    others = λ q t h. ap (λ d. ops.is_member d.hub q t) e;
  }

  join-others :
      (t : String) (c : Core Hub) (q u : String)
      → (c.connection_id == q) ≡ false
      → ops.is_member (join_core ops t c).hub q u ≡ ops.is_member c.hub q u
  join-others t c q u h = ground (arith, laws.member-join c.hub c.connection_id t q u)

  leave-others :
      (t : String) (c : Core Hub) (q u : String)
      → (c.connection_id == q) ≡ false
      → ops.is_member (leave_core ops t c).hub q u ≡ ops.is_member c.hub q u
  leave-others t c q u h = ground (arith, laws.member-leave c.hub c.connection_id t q u)

  CoreStep-Kept : (backing : Backing) (c c' : Core Hub) → CoreStep ops backing c c' → Kept c c'
  CoreStep-Kept backing c c' (stays e) = same-Kept c c' e
  CoreStep-Kept backing c c' (joins t may e) = record {
    same_id = ap (λ d. d.connection_id) e;
    same_closing = ap (λ d. d.closing) e;
    others = λ q u h. ap (λ d. ops.is_member d.hub q u) e ∙ join-others t c q u h;
  }
  CoreStep-Kept backing c c' (leaves t e) = record {
    same_id = ap (λ d. d.connection_id) e;
    same_closing = ap (λ d. d.closing) e;
    others = λ q u h. ap (λ d. ops.is_member d.hub q u) e ∙ leave-others t c q u h;
  }

  join-Tracks : (t : String) (c : Core Hub) → Tracks c → Tracks (join_core ops t c)
  join-Tracks t c tracks u m = ground (
    arith,
    laws.member-join c.hub c.connection_id t c.connection_id u,
    elem-add_topic t u c.topics,
    eq_iff t u,
    eq_iff u t,
    eq_refl c.connection_id,
    tracks u,
  )

  leave-Tracks : (t : String) (c : Core Hub) → Tracks c → Tracks (leave_core ops t c)
  leave-Tracks t c tracks u m = ground (
    arith,
    laws.member-leave c.hub c.connection_id t c.connection_id u,
    elem-discard t u c.topics,
    eq_refl c.connection_id,
    tracks u,
  )

  CoreStep-Tracks :
      (backing : Backing) (c c' : Core Hub) → CoreStep ops backing c c' → Tracks c → Tracks c'
  CoreStep-Tracks backing c c' (stays e) tracks = subst Tracks (sym e) tracks
  CoreStep-Tracks backing c c' (joins t may e) tracks =
      subst Tracks (sym e) (join-Tracks t c tracks)
  CoreStep-Tracks backing c c' (leaves t e) tracks = subst Tracks (sym e) (leave-Tracks t c tracks)

  pub Kept-trans : (a b c : Core Hub) → Kept a b → Kept b c → Kept a c
  Kept-trans a b c h k = record {
    same_id = k.same_id ∙ h.same_id;
    same_closing = k.same_closing ∙ h.same_closing;
    others = λ q t e. k.others q t (ap (λ i. i == q) h.same_id ∙ e) ∙ h.others q t e;
  }

  pub leave_all-member :
      (p : String) (ts : List String) (h : Hub) (q u : String)
      → ops.is_member (leave_all ops p ts h) q u
        ≡ (not (p == q && elem u ts) && ops.is_member h q u)
  unfolding leave_all
  leave_all-member p [] h q u = ground arith
  leave_all-member p (t ∷ ts) h q u = ground (
    arith,
    leave_all-member p ts (ops.leave h p t) q u,
    laws.member-leave h p t q u,
    eq_iff t u,
    eq_iff u t,
  )

  module _ (repr : Json → String) where
    -- What the loop of a connection keeps, whatever it meets.
    pub serve_lem :
        (inputs : List Input) (w : World Hub)
        → Tracks (core w)
        → Kept (core w) (core (serve ops repr inputs w)) × Tracks (core (serve ops repr inputs w))
    unfolding serve
    serve_lem [] w tracks = (same-Kept (core w) (core w) refl, tracks)
    serve_lem (deadline ∷ inputs) w tracks =
        let f = error_frame "expired" "connection lifetime reached" none none in
        let same = core-send ops repr f w in
        (
          same-Kept (core w) (core (state_of (send ops repr f w))) same,
          subst Tracks (sym same) tracks,
        )
    serve_lem (silence ∷ inputs) w tracks = (same-Kept (core w) (core w) refl, tracks)
    serve_lem (disconnect ∷ inputs) w tracks = (same-Kept (core w) (core w) refl, tracks)
    serve_lem (frame backing raw ∷ inputs) w tracks =
        go (handle ops repr backing raw w) (handle-CoreStep ops repr backing raw w)
          (serve_lem inputs)
      where
        go :
            (e : Exec (World Hub))
            → CoreStep ops backing (core w) (core (state_of e))
            → ((w' : World Hub)
                → Tracks (core w')
                → Kept (core w') (core (serve ops repr inputs w'))
                  × Tracks (core (serve ops repr inputs w')))
            → Kept (core w) (
                core (elim e as (λ x. World Hub) [
                  | going w' ↦ serve ops repr inputs w'
                  | raised w' ↦ w'
                ]))
              × Tracks (
                  core (elim e as (λ x. World Hub) [
                    | going w' ↦ serve ops repr inputs w'
                    | raised w' ↦ w'
                  ]))
        go (raised w') step ih = (
          CoreStep-Kept backing (core w) (core w') step,
          CoreStep-Tracks backing (core w) (core w') step tracks,
        )
        go (going w') step ih =
            let (kept, after) = ih w' (CoreStep-Tracks backing (core w) (core w') step tracks) in
            (
              Kept-trans (core w) (core w') (core (serve ops repr inputs w'))
                  (CoreStep-Kept backing (core w) (core w') step) kept,
              after,
            )
