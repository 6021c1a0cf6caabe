-- ===== src/Realtime/Lifecycle.antt =====
-- The life of a connection: `run` and `shutdown` of realtime/session.py, and the registry of
-- realtime/__init__.py that it enters and leaves.
pub mod Tracking
pub mod Closing
use beacn.Base.{
  ℕ, zero, suc, Bool, true, false, not, String, List, [], ◌∷◌, ◌++◌, Option, none, some, elem, keep,
  ◌==◌, if◌then◌else◌,
}
use beacn.Base.Json.{Json}
use beacn.Realtime.Protocol.{ServerFrame, welcome, error_frame}
use beacn.Realtime.Hub.{HubOps}
use beacn.Realtime.Session.{
  Session, ConnectionRow, Backing, World, Exec, going, raised, state_of, ◌>>=◌, send, handle,
}

-- What the loop of `run` meets: a frame, with the database as it is then; the end of the connection's
-- lifetime; three heartbeats of silence; or a socket that raises.
pub data Input : Type 0 where
  frame : Backing → Json → Input
  deadline silence disconnect : Input

-- `rt.register(session)` and `rt.unregister(connection_id)`
abbrev pub register : String → List String → List String
register id registered = if elem id registered then registered else id ∷ registered

abbrev pub unregister : String → List String → List String
unregister id registered = keep (λ i. not (id == i)) registered

module _ {Hub : Type 0} (ops : HubOps Hub) where
  -- `for topic in list(self.topics): await rt.hub.leave(self.peer, topic)`
  unfoldable pub leave_all : String → List String → Hub → Hub
  leave_all peer [] hub = hub
  leave_all peer (topic ∷ topics) hub = leave_all peer topics (ops.leave hub peer topic)

  -- `_close_row(code, reason)`
  abbrev pub closed_row : ℕ → String → Session → ConnectionRow
  closed_row code reason s = record s.row {
    status = "closed";
    close_code = some code;
    close_reason = some reason;
    events_sent = s.events_sent;
    events_dropped = s.events_dropped;
  }

  -- `shutdown(code, reason)`; the reasons in use are short.
  unfoldable pub shutdown : ℕ → String → World Hub → World Hub
  shutdown code reason w = if w.session.closing then w else record {
    hub = leave_all w.session.connection_id w.session.topics w.hub;
    registered = unregister w.session.connection_id w.registered;
    session = record w.session {
      closing = true;
      topics = [];
      row = closed_row code reason w.session;
    };
  }

  -- `rt.register(self)` and `_open_row(…)`
  unfoldable pub opened : World Hub → World Hub
  opened w = record w {
    registered = register w.session.connection_id w.registered;
    session = record w.session {
      row = record {
        subscriptions = [];
        status = "open";
        close_code = none;
        close_reason = none;
        events_sent = 0;
        events_dropped = 0;
      };
    };
  }

  module _ (repr : Json → String) where
    -- The loop of `run`, up to its `finally`.
    unfoldable pub serve : List Input → World Hub → World Hub
    serve [] w = w
    serve (deadline ∷ inputs) w =
        state_of (send ops repr (error_frame "expired" "connection lifetime reached" none none) w)
    serve (silence ∷ inputs) w = w
    serve (disconnect ∷ inputs) w = w
    serve (frame backing raw ∷ inputs) w = elim (handle ops repr backing raw w) [
      | going w' ↦ serve inputs w'
      | raised w' ↦ w'
    ]

    -- `run()`: the welcome is sent before the `try`, so nothing is closed if that raises.
    unfoldable pub run : ℕ → List Input → World Hub → World Hub
    run heartbeat_ms inputs w =
        elim (send ops repr (welcome w.session.connection_id heartbeat_ms) (opened w)) [
          | going w' ↦ shutdown 1000 "closed" (serve inputs w')
          | raised w' ↦ w'
        ]
