-- ===== src/Sdk/Batch.antt =====
-- A batch under one idempotency key is safe to repeat, and how each client takes it.
use Prim.Native.String
use beacn.Base.{◌≡◌, String, List, [], ◌∷◌, Option, none, some}
use beacn.Base.Json.{Json, Items, null, nil, cons, arr, obj, Fields, get, get?}

-- No event of a batch says anything of its own key.
abbrev pub IsUnkeyed : Fields → Type 0
IsUnkeyed item = get? item "idempotency_key" ≡ none

-- The keys of the events of a body.
abbrev pub key_of : Json → Json
key_of (obj item) = get item "idempotency_key"
key_of v = null

abbrev pub keys_of : Items → List Json
keys_of nil = []
keys_of (cons item items) = key_of item ∷ keys_of items

abbrev pub keys_in : Option Json → List Json
keys_in (some (arr items)) = keys_of items
keys_in _ = []

abbrev pub keys_of_body : Json → List Json
keys_of_body (obj body) = keys_in (get? body "events")
keys_of_body v = []
