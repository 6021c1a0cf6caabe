-- ===== src/Paging.antt =====
-- Pages of rows behind a cursor, the pattern that replay, history and the lists of the REST API share:
-- read one row more than the limit, cut it off, and give the last row's id as the next cursor if there
-- was one more.
pub mod Complete
use beacn.Base.{
  ℕ, zero, suc, ◌+◌, ◌≡◌, Bool, true, false, ◌&&◌, not, String, List, [], ◌∷◌, ◌++◌, Option, none,
  some, is_empty, ltb, leb, eqb, length, take, keep, last?, if◌then◌else◌,
}

pub record Page (A : Type 0) : Type 0 where
  pub items : List A
  pub has_more : Bool
  pub next_cursor : Option String

module _ {A : Type 0} (key : A → String) where
  abbrev pub key_of_last : Option A → Option String
  key_of_last none = none
  key_of_last (some x) = some (key x)

  -- rows = await qs.limit(limit + 1); more = len(rows) > limit; rows = rows[:limit];
  -- cursor = rows[-1].id if rows and more else None
  unfoldable pub page_of : ℕ → List A → Page A
  page_of limit rows =
      let fetched = take (limit + 1) rows in
      let more = ltb limit (length fetched) in
      record {
        items = take limit fetched;
        has_more = more;
        next_cursor = if more then key_of_last (last? (take limit fetched)) else none;
      }

  -- `if cursor: qs = qs.filter(id__gt=cursor)`; `before` is the order in which the rows are read.
  abbrev pub behind : (String → String → Bool) → Option String → A → Bool
  behind before none x = true
  behind before (some c) x = if is_empty c then true else before c (key x)

  -- A client that asks for page after page.
  unfoldable pub follow : (String → String → Bool) → ℕ → ℕ → List A → Option String → List A
  follow before zero limit rows cursor = []
  follow before (suc fuel) limit rows cursor =
      let page = page_of limit (keep (behind before cursor) rows) in
      page.items
      ++ elim page.next_cursor [ none ↦ [] | some c ↦ follow before fuel limit rows (some c) ]
