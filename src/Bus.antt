-- ===== src/Bus.antt =====
-- realtime/bus.py: `_SeenSet`, the bounded memory of ids by which an instance does not deliver an event
-- twice that comes back to it over the bus.
pub mod Memory
pub mod Redis
pub mod Tests
use beacn.Base.{
  ℕ, Bool, true, false, String, List, [], ◌∷◌, ◌++◌, ltb, length, drop, elem, if◌then◌else◌,
}

abbrev pub default_capacity : ℕ
default_capacity = 20000

-- `seen.add(key)`: True if newly added; the ids stand in the order of their arrival.
unfoldable pub add : ℕ → String → List String → Bool × List String
add capacity key seen = if elem key seen then (false, seen) else (
  true,
  if ltb capacity (length (seen ++ key ∷ [])) then drop 1 (seen ++ key ∷ []) else seen ++ key ∷ [],
)

-- The ids of a run of events are added.
unfoldable pub add_all : ℕ → List String → List String → List String
add_all capacity [] seen = seen
add_all capacity (key ∷ keys) seen = add_all capacity keys (add capacity key seen).1
