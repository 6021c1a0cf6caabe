-- ===== src/Bus/Tests.antt =====
-- A memory of two ids, and a network in which one instance publishes.
use beacn.Base.{ℕ, ◌≡◌, refl, true, false, List, [], ◌∷◌}
use beacn.Bus.{add}
use beacn.Bus.Redis.{Instance, Network, Action, publishes, listens, run, run-unsubscribed}
use beacn.Events.Wire.{Wire, live_wire}
use beacn.Events.Tests.{accepted}

pushed_out : (add 2 "c" ("a" ∷ "b" ∷ [])).1 ≡ "b" ∷ "c" ∷ []
unfolding add
pushed_out = refl

is_new : (add 2 "c" ("a" ∷ "b" ∷ [])).0 ≡ true
unfolding add
is_new = refl

abbrev idle : Instance
idle = record {
  delivered = [];
  seen = [];
  channels = [];
  degraded = false;
  is_connected = true;
  waiting = [];
}

abbrev all_idle : Network
all_idle j = idle

abbrev news : Wire
news = live_wire true accepted

-- The instance 0 publishes, and hears of it.
abbrev busy : List (ℕ × Action)
busy = (0, publishes true true "production" "task" news) ∷ (0, listens) ∷ (1, listens) ∷ []

run-unsubscribed_example : run busy all_idle 1 ≡ idle
run-unsubscribed_example = run-unsubscribed busy all_idle 1 refl (refl, (refl, (refl, tt)))
