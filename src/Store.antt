-- ===== src/Store.antt =====
-- The `events` table (database/models/event.py), held in the order of its primary key, so that
-- `order_by("id")` reads it forwards and `order_by("-id")` backwards.
pub mod Order
pub mod Tests
use beacn.Base.{
  Bool, true, false, String, List, [], ◌∷◌, ◌++◌, Option, none, some, str_ltb, ◌==◌, is_empty,
  if◌then◌else◌,
}
use beacn.Events.Wire.{EventRow}

abbrev pub Table : Type 0
Table = List EventRow

abbrev push : EventRow → Option Table → Option Table
push row none = none
push row (some rows) = some (row ∷ rows)

-- `Event.create(**row)`; none is `IntegrityError`, for an id that the table has.
unfoldable pub create : EventRow → Table → Option Table
create row [] = some (row ∷ [])
create row (r ∷ rows) =
    let rest = push r (create row rows) in
    if row.id == r.id then none else if str_ltb row.id r.id then some (row ∷ r ∷ rows) else rest

-- `order_by("-id")`
unfoldable pub backwards : Table → Table
backwards [] = []
backwards (r ∷ rows) = backwards rows ++ r ∷ []
