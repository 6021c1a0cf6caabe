-- ===== src/Realtime/Lifecycle/Closing.antt =====
-- What a connection leaves behind when it ends.
use beacn.Base.{
  ℕ, suc, ◌≡◌, refl, ap, sym, ◌∙◌, inl, inr, true, false, ◌&&◌, ◌||◌, String, List, [], ◌∷◌, ◌++◌,
  Option, arith, elem, ◌==◌, eq_refl, Bool-cases,
}
use beacn.Base.Json.{Json}
use beacn.Realtime.Protocol.{ServerFrame, welcome}
use beacn.Realtime.Hub.{HubOps, HubLaws}
use beacn.Realtime.Session.{World, going, state_of, send, finish_subscribe}
use beacn.Realtime.Session.Membership.{Core, core, join_core, core-send, finish_subscribe-core}
use beacn.Realtime.Lifecycle.{Input, register, shutdown, opened, serve, run}
use beacn.Realtime.Lifecycle.Tracking.{
  elem-unregister, Tracks, Kept, leave_all-member, Kept-trans, serve_lem,
}

module _ {Hub : Type 0} (ops : HubOps Hub) (laws : HubLaws ops) where
  -- A connection that is over: out of the hub and of the registry, with its row closed, and the
  -- memberships of the others as they were.
  pub record Gone (w w' : World Hub) : Type 0 where
    pub no_member : (t : String) → ops.is_member w'.hub w.session.connection_id t ≡ false
    pub not_registered : elem w.session.connection_id w'.registered ≡ false
    pub no_topics : w'.session.topics ≡ []
    pub row_closed : w'.session.row.status ≡ "closed"
    pub others :
        (q t : String)
        → (w.session.connection_id == q) ≡ false
        → ops.is_member w'.hub q t ≡ ops.is_member w.hub q t

  shutdown-Gone :
      (code : ℕ) (reason : String) (w : World Hub)
      → w.session.closing ≡ false
      → Tracks ops laws (core w)
      → Gone w (shutdown ops code reason w)
  unfolding shutdown
  shutdown-Gone code reason w running tracks =
      let id = w.session.connection_id in
      let ts = w.session.topics in
      rw (running, shutdown)
        (record {
          no_member =
              λ t. ground (arith, leave_all-member ops laws id ts w.hub id t, eq_refl id, tracks t);
          not_registered = elem-unregister id w.registered;
          no_topics = refl;
          row_closed = refl;
          others = λ q t h. ground (arith, leave_all-member ops laws id ts w.hub q t);
        })

  Gone-from : (w0 w w' : World Hub) → Kept ops laws (core w0) (core w) → Gone w w' → Gone w0 w'
  Gone-from w0 w w' kept gone = record {
    no_member = λ t. ap (λ i. ops.is_member w'.hub i t) (sym kept.same_id) ∙ gone.no_member t;
    not_registered = ap (λ i. elem i w'.registered) (sym kept.same_id) ∙ gone.not_registered;
    no_topics = gone.no_topics;
    row_closed = gone.row_closed;
    others = λ q t h. gone.others q t (ap (λ i. i == q) kept.same_id ∙ h) ∙ kept.others q t h;
  }

  send-going :
      (repr : Json → String) (f : ServerFrame) (w : World Hub) (n : ℕ)
      → w.session.sends_left ≡ suc n
      → (w' : World Hub) × (send ops repr f w ≡ going w')
  unfolding send
  send-going repr f w n e = (
    record w { session = record w.session { sent = w.session.sent ++ f ∷ []; sends_left = n } },
    rw (e, send) refl,
  )

  no_member-Tracks :
      (c : Core Hub)
      → ((t : String) → ops.is_member c.hub c.connection_id t ≡ false)
      → Tracks ops laws c
  no_member-Tracks c none_yet t m = absurd (cc (none_yet t))

  -- Whatever a client sends and however its connection ends (by silence, by its lifetime, by a
  -- disconnect, or by a frame that the socket does not take): once it was welcomed, it leaves nothing
  -- behind. It is a member of no topic and not registered, its row is closed, and no membership of
  -- another connection has changed. The connection is new: it was in no topic and not closing.
  pub run-Gone :
      (repr : Json → String) (heartbeat_ms : ℕ) (inputs : List Input) (w : World Hub) (n : ℕ)
      → w.session.sends_left ≡ suc n
      → w.session.closing ≡ false
      → ((t : String) → ops.is_member w.hub w.session.connection_id t ≡ false)
      → Gone w (run ops repr heartbeat_ms inputs w)
  unfolding run opened
  run-Gone repr heartbeat_ms inputs w n room running fresh =
      let f = welcome w.session.connection_id heartbeat_ms in
      let (w1, sent) = send-going repr f (opened ops w) n room in
      let same : core w1 ≡ core (opened ops w) =
        ap (λ e. core (state_of e)) (sym sent) ∙ core-send ops repr f (opened ops w) in
      let welcomed : Kept ops laws (core w) (core w1) = record {
        same_id = ap (λ c. c.connection_id) same;
        same_closing = ap (λ c. c.closing) same;
        others = λ q t h. ap (λ c. ops.is_member c.hub q t) same;
      } in
      let none_yet : Tracks ops laws (core w1) =
        no_member-Tracks (core w1)
          (λ t. ap (λ c. ops.is_member c.hub c.connection_id t) same ∙ fresh t) in
      let (kept, tracks) = serve_lem ops laws repr inputs w1 none_yet in
      let all_kept =
        Kept-trans ops laws (core w) (core w1) (core (serve ops repr inputs w1)) welcomed kept in
      rw (sent, run)
        (Gone-from w (serve ops repr inputs w1)
          (shutdown ops 1000 "closed" (serve ops repr inputs w1)) all_kept
          (shutdown-Gone 1000 "closed" (serve ops repr inputs w1) (all_kept.same_closing ∙ running)
            tracks))

  -- The welcome stands before the `try`: if the socket does not take it, the connection stays
  -- registered and its row stays open, and nothing has shut it down.
  pub run-unwelcomed :
      (repr : Json → String) (heartbeat_ms : ℕ) (inputs : List Input) (w : World Hub)
      → w.session.sends_left ≡ 0
      → (elem w.session.connection_id (run ops repr heartbeat_ms inputs w).registered ≡ true)
        × (((run ops repr heartbeat_ms inputs w).session.row.status ≡ "open")
            × ((run ops repr heartbeat_ms inputs w).session.closing ≡ w.session.closing))
  unfolding run opened send
  run-unwelcomed repr heartbeat_ms inputs w full =
      (rw (full, run) (registered w.registered), (rw (full, run) refl, rw (full, run) refl))
    where
      registered :
          (ids : List String)
          → elem w.session.connection_id (register w.session.connection_id ids) ≡ true
      registered ids = ground (arith, eq_refl w.session.connection_id)

  shutdown-closing :
      (code : ℕ) (reason : String) (w : World Hub)
      → (shutdown ops code reason w).session.closing ≡ true
  unfolding shutdown
  shutdown-closing code reason w = elim (Bool-cases w.session.closing) [
    | inl closing ↦ rw (closing, shutdown) refl
    | inr running ↦ rw (running, shutdown) refl
  ]

  shutdown-connection_id :
      (code : ℕ) (reason : String) (w : World Hub)
      → (shutdown ops code reason w).session.connection_id ≡ w.session.connection_id
  unfolding shutdown
  shutdown-connection_id code reason w = elim (Bool-cases w.session.closing) [
    | inl closing ↦ rw (closing, shutdown) refl
    | inr running ↦ rw (running, shutdown) refl
  ]

  shutdown-closed :
      (code : ℕ) (reason : String) (w : World Hub)
      → w.session.closing ≡ true
      → shutdown ops code reason w ≡ w
  unfolding shutdown
  shutdown-closed code reason w closing = rw (closing, shutdown) refl

  -- An operator terminates a connection while its subscription waits for its authorization: the
  -- subscription then joins the hub all the same, and no later shutdown takes the membership back.
  pub shutdown-finish_subscribe :
      (repr : Json → String) (t : String) (ref : Option String) (code later : ℕ)
      (reason why : String) (w : World Hub)
      → (ops.is_member
            (shutdown ops later why
              (state_of (finish_subscribe ops repr t ref (shutdown ops code reason w)))).hub
            w.session.connection_id
            t
          ≡ true)
  shutdown-finish_subscribe repr t ref code later reason why w =
      let v = shutdown ops code reason w in
      let u = state_of (finish_subscribe ops repr t ref v) in
      let step : core u ≡ join_core ops t (core v) = finish_subscribe-core ops repr t ref v in
      let idle : shutdown ops later why u ≡ u =
        shutdown-closed later why u (ap (λ c. c.closing) step ∙ shutdown-closing code reason w) in
      let id = shutdown-connection_id code reason w in
      ap (λ x. ops.is_member x.hub w.session.connection_id t) idle
      ∙ ap (λ c. ops.is_member c.hub w.session.connection_id t) step
      ∙ laws.member-join v.hub v.session.connection_id t w.session.connection_id t
      ∙ ap
          (λ i.
            (i == w.session.connection_id && t == t)
            || ops.is_member v.hub w.session.connection_id t)
          id
      ∙ rw (eq_refl w.session.connection_id, eq_refl t) refl
