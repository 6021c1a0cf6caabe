-- ===== src/History.antt =====
-- app/services/history.py: cursor-paginated reads of the stored events.
pub mod Complete
pub mod Tests
use beacn.Base.{
  ℕ, zero, suc, min, max, Bool, true, false, ◌&&◌, not, String, List, [], ◌∷◌, ◌++◌, Option, none,
  some, is_empty, str_ltb, ◌==◌, keep, length, find, if◌then◌else◌,
}
use beacn.Base.Int.{ℤ, pos, negsuc, ltb_ℤ}
use mathlib.Core.List.{map}
use beacn.Events.Model.{Time, EventKind}
use beacn.Events.Wire.{EventRow, Wire, stored_wire}
use beacn.Store.{Table, backwards}
use beacn.Store.Order.{str_gtb}
use beacn.Paging.{Page, page_of, behind}

abbrev pub max_limit : ℕ
max_limit = 200

abbrev pub default_limit : ℕ
default_limit = 50

pub record HistoryQuery : Type 0 where
  pub environment : String
  pub topic : Option String
  pub event : Option String
  pub event_prefix : Option String
  pub producer_id : Option String
  pub kind : Option String
  pub severity : Option String
  pub correlation_id : Option String
  pub user_id : Option String
  pub since : Option Time
  pub until : Option Time
  pub cursor : Option String
  pub order : String
  pub limit : ℤ

-- `max(1, min(MAX_LIMIT, self.limit or DEFAULT_LIMIT))`
unfoldable pub clamped_limit : ℤ → ℕ
clamped_limit (pos zero) = max 1 (min max_limit default_limit)
clamped_limit (pos (suc n)) = max 1 (min max_limit (suc n))
clamped_limit (negsuc n) = 1

-- The text of the `kind` column.
abbrev pub kind_name : EventKind → String
kind_name EventKind.event = "event"
kind_name EventKind.task = "task"
kind_name EventKind.notification = "notification"
kind_name EventKind.message = "message"

-- `if value: qs = qs.filter(column=value)`
abbrev pub is_text : Option String → Option String → Bool
is_text none column = true
is_text (some v) none = is_empty v
is_text (some v) (some c) = if is_empty v then true else c == v

abbrev pub is_from : Option Time → Time → Bool
is_from none t = true
is_from (some since) t = not (ltb_ℤ t since)

abbrev pub is_until : Option Time → Time → Bool
is_until none t = true
is_until (some until) t = not (ltb_ℤ until t)

abbrev pub row_id : EventRow → String
row_id row = row.id

-- `starts_with prefix column` is the database's `startswith`, which may ignore case.
module _ (starts_with : String → String → Bool) where
  abbrev pub has_prefix : Option String → String → Bool
  has_prefix none column = true
  has_prefix (some p) column = if is_empty p then true else starts_with p column

  -- The filters that come before the cursor's.
  unfoldable pub matches_query : HistoryQuery → EventRow → Bool
  matches_query q row =
      row.environment == q.environment
      && is_text q.topic (some row.topic)
      && is_text q.event (some row.event)
      && has_prefix q.event_prefix row.event
      && is_text q.producer_id row.producer_id
      && is_text q.kind (some (kind_name row.kind))
      && is_text q.severity (some row.severity)
      && is_text q.correlation_id row.correlation_id
      && is_text q.user_id row.user_id
      && is_from q.since row.published_at
      && is_until q.until row.published_at

  -- `q.order != "asc"`
  abbrev pub descending_of : HistoryQuery → Bool
  descending_of q = not (q.order == "asc")

  abbrev pub in_order : Bool → Table → Table
  in_order true rows = backwards rows
  in_order false rows = rows

  abbrev pub before_in : Bool → String → String → Bool
  before_in true s t = str_gtb s t
  before_in false s t = str_ltb s t

  -- The rows of a page; the table is in the order of its ids.
  unfoldable pub query_rows : HistoryQuery → Table → Page EventRow
  query_rows q events =
      let descending = descending_of q in
      page_of row_id (clamped_limit q.limit) (
        keep (behind row_id (before_in descending) q.cursor)
          (keep (matches_query q) (in_order descending events)))

  pub record EventPage : Type 0 where
    pub events : List Wire
    pub next_cursor : Option String
    pub has_more : Bool
    pub count : ℕ

  unfoldable pub query : Bool → HistoryQuery → Table → EventPage
  query include_meta q events =
      let page = query_rows q events in
      record {
        events = map (stored_wire include_meta) page.items;
        next_cursor = page.next_cursor;
        has_more = page.has_more;
        count = length page.items;
      }

  -- A client that asks again with `next_cursor` until there is none.
  unfoldable pub read_all : ℕ → Bool → HistoryQuery → Table → List Wire
  read_all zero include_meta q events = []
  read_all (suc fuel) include_meta q events =
      let page = query include_meta q events in
      page.events ++ elim page.next_cursor [
        | none ↦ []
        | some c ↦ read_all fuel include_meta (record q { cursor = some c }) events
      ]

-- `Event.get_or_none(environment=environment, id=event_id)`
unfoldable pub get_one : String → String → Table → Option EventRow
get_one environment event_id events =
    find (λ row. row.environment == environment && row.id == event_id) events
