-- ===== src/History/Complete.antt =====
-- A client that follows the cursor of history sees every matching event once, in either order.
use beacn.Base.{
  ℕ, zero, suc, ◌-◌, ◌<◌, ◌≤◌, ◌≡◌, refl, ap, ◌∙◌, Bool, true, false, String, some, arith, is_empty,
  length, keep, All, All-keep, All-imp, All-take, ◌+◌, Option-cases, inl, inr, eq_iff,
}
use beacn.Base.Int.{ℤ, pos, negsuc}
use mathlib.Core.List.{map, map-append}
use beacn.Events.Wire.{EventRow, stored_wire}
use beacn.Store.{Table}
use beacn.Store.Order.{ascending, descending, IsAscending, backwards-IsDescending, All-backwards}
use beacn.Paging.{page_of, behind, follow}
use beacn.Paging.Complete.{IsOrder, InOrder, follow_complete, keep-InOrder, All-keep_of}
use beacn.History.{
  HistoryQuery, clamped_limit, max_limit, matches_query, descending_of, in_order, before_in,
  query_rows, query, read_all, row_id,
}

-- A page holds between one row and two hundred, whatever limit was asked for.
pub clamped_limit_bounds : (n : ℤ) → (1 ≤ clamped_limit n) × (clamped_limit n ≤ max_limit)
unfolding clamped_limit
clamped_limit_bounds (pos zero) = (omega arith, omega arith)
clamped_limit_bounds (pos (suc n)) = (omega arith, omega arith)
clamped_limit_bounds (negsuc n) = (omega arith, omega arith)

module _ (starts_with : String → String → Bool) where
  read_all_lem :
      (fuel : ℕ) (include_meta : Bool) (q : HistoryQuery) (events : Table)
      → read_all starts_with fuel include_meta q events
        ≡ map (stored_wire include_meta) (
            follow row_id
              (before_in starts_with (descending_of starts_with q))
              fuel
              (clamped_limit q.limit)
              (keep
                (matches_query starts_with q)
                (in_order starts_with (descending_of starts_with q) events))
              q.cursor)
  unfolding read_all query query_rows follow matches_query
  read_all_lem zero include_meta q events = refl
  read_all_lem (suc fuel) include_meta q events =
      elim (Option-cases (query_rows starts_with q events).next_cursor) [
        | inl last ↦ rw (last, map-append) refl
        | inr (c, more) ↦
            rw
              (
                more,
                map-append,
                read_all_lem fuel include_meta (record q { cursor = some c }) events,
              )
              refl
      ]

  before_IsOrder : (b : Bool) → IsOrder (before_in starts_with b)
  before_IsOrder true = descending
  before_IsOrder false = ascending

  in_order-InOrder :
      (b : Bool) (events : Table)
      → IsAscending events
      → InOrder row_id (before_in starts_with b) (before_IsOrder b) (in_order starts_with b events)
  in_order-InOrder true events sorted = backwards-IsDescending events sorted
  in_order-InOrder false events sorted = sorted

  All-in_order :
      (P : EventRow → Type 0) (b : Bool) (events : Table)
      → All P events
      → All P (in_order starts_with b events)
  All-in_order P true events h = All-backwards P events h
  All-in_order P false events h = h

  -- A client that asks for page after page, in any page size and either order, receives the wire
  -- form of exactly the stored events that match its filters and stand behind its first cursor, each
  -- once and in the order it asked for; one request to each and one more are enough. The store is in
  -- the order of its ids, none of which is empty.
  pub read_all_complete :
      (fuel : ℕ) (include_meta : Bool) (q : HistoryQuery) (events : Table)
      → IsAscending events
      → All (λ r. is_empty r.id ≡ false) events
      → length (
          keep (behind row_id (before_in starts_with (descending_of starts_with q)) q.cursor) (
            keep
              (matches_query starts_with q)
              (in_order starts_with (descending_of starts_with q) events)))
        < fuel
      → read_all starts_with fuel include_meta q events
        ≡ map (stored_wire include_meta) (
            keep (behind row_id (before_in starts_with (descending_of starts_with q)) q.cursor) (
              keep
                (matches_query starts_with q)
                (in_order starts_with (descending_of starts_with q) events)))
  read_all_complete fuel include_meta q events sorted named enough =
      let b = descending_of starts_with q in
      let o = before_IsOrder b in
      let p = matches_query starts_with q in
      let rows = in_order starts_with b events in
      let (n, size) = some_rows q.limit in
      let pages : follow row_id (before_in starts_with b) fuel (clamped_limit q.limit) (keep p rows)
            q.cursor
          ≡ keep (behind row_id (before_in starts_with b) q.cursor) (keep p rows) =
        ap (λ l. follow row_id (before_in starts_with b) fuel l (keep p rows) q.cursor) size
        ∙ follow_complete row_id (before_in starts_with b) o (keep p rows)
            (keep-InOrder row_id (before_in starts_with b) o p rows
              (in_order-InOrder b events sorted))
            (All-keep_of row_id (before_in starts_with b) o (λ r. is_empty r.id ≡ false) p rows
              (All-in_order _ b events named))
            fuel n q.cursor enough in
      read_all_lem fuel include_meta q events ∙ ap (map (stored_wire include_meta)) pages
    where
      some_rows : (l : ℤ) → (n : ℕ) × (clamped_limit l ≡ suc n)
      some_rows l = (clamped_limit l - 1, omega (arith, (clamped_limit_bounds l).0))

  matches_query-environment :
      (q : HistoryQuery) (row : EventRow)
      → matches_query starts_with q row ≡ true
      → row.environment ≡ q.environment
  unfolding matches_query
  matches_query-environment q row h = ground (arith, eq_iff row.environment q.environment)

  -- A row of a page belongs to the environment that was asked for.
  pub query_rows_isolated :
      (q : HistoryQuery) (events : Table)
      → All (λ row. row.environment ≡ q.environment) (query_rows starts_with q events).items
  unfolding query_rows page_of
  query_rows_isolated q events =
      let b = descending_of starts_with q in
      let rows = keep (matches_query starts_with q) (in_order starts_with b events) in
      let matched : All (λ row. row.environment ≡ q.environment) rows =
        All-imp _ _ rows (matches_query-environment q)
          (All-keep (matches_query starts_with q) (in_order starts_with b events)) in
      All-take _ (clamped_limit q.limit) _ (
        All-take _ (clamped_limit q.limit + 1) _ (
          All-keep_of row_id (before_in starts_with b) (before_IsOrder b) _
            (behind row_id (before_in starts_with b) q.cursor) rows matched))
