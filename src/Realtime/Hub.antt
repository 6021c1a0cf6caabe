-- ===== src/Realtime/Hub.antt =====
-- The hub of sillo_wire, which fans events out to the connections of this process: what the code
-- relies on. A peer is named by the id of its connection.
use beacn.Base.{ℕ, Bool, ◌&&◌, ◌||◌, not, String, List, [], ◌∷◌, ◌++◌, ◌==◌, ◌≡◌, if◌then◌else◌}
use beacn.Events.Wire.{Wire}

-- What a broadcast reports.
pub record DeliveryReport : Type 0 where
  pub delivered : ℕ
  pub dropped : ℕ

pub record HubOps (Hub : Type 0) : Type 0 where
  pub join : Hub → String → String → Hub
  pub leave : Hub → String → String → Hub
  -- `hub.broadcast(topic, frame, retain=False)`
  pub broadcast : Hub → String → Wire → Hub
  pub report : Hub → String → Wire → DeliveryReport
  -- Whether a peer is a member of a topic, and the events that were offered to its queue.
  pub is_member : Hub → String → String → Bool
  pub offered : Hub → String → List Wire

-- Joining adds one membership, leaving takes it away, and neither touches another; a broadcast is
-- offered to the members of its topic, and to nobody else.
pub record HubLaws {Hub : Type 0} (ops : HubOps Hub) : Type 0 where
  pub member-join :
      (h : Hub) (p t q u : String)
      → ops.is_member (ops.join h p t) q u ≡ ((p == q && t == u) || ops.is_member h q u)
  pub member-leave :
      (h : Hub) (p t q u : String)
      → ops.is_member (ops.leave h p t) q u ≡ (not (p == q && t == u) && ops.is_member h q u)
  pub offered-broadcast :
      (h : Hub) (t : String) (wire : Wire) (p : String)
      → ops.offered (ops.broadcast h t wire) p
        ≡ (if ops.is_member h p t then ops.offered h p ++ wire ∷ [] else ops.offered h p)
  pub member-broadcast :
      (h : Hub) (t : String) (wire : Wire) (p u : String)
      → ops.is_member (ops.broadcast h t wire) p u ≡ ops.is_member h p u
