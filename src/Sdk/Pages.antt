-- ===== src/Sdk/Pages.antt =====
-- `history`, `Page` and `iter_events` of sdk/python/beacn.py: the pages of the history, one after the
-- other, from the route that lists events.
pub mod Steps
pub mod Complete
use beacn.Base.{
  ℕ, zero, suc, Bool, true, false, String, List, [], ◌++◌, Option, none, some, ◌==◌, if◌then◌else◌,
}
use beacn.Base.Int.{ℤ}
use beacn.Events.Wire.{Wire}
use beacn.History.{EventPage}
use beacn.Api.Lists.{Parameters}

-- The arguments of `history`, with its defaults put in.
pub record Filters : Type 0 where
  pub topic : Option String
  pub event : Option String
  pub event_prefix : Option String
  pub kind : Option String
  pub severity : Option String
  pub correlation_id : Option String
  pub since : Option String
  pub until : Option String
  pub order : String
  pub limit : ℤ
  pub cursor : Option String

-- The query parameters of `history(...)`; what is None is not sent. `str_of_int` is `str` of an int.
unfoldable pub history_params : (ℤ → String) → Filters → Parameters
history_params str_of_int f key =
    if key == "topic"
    then f.topic
    else if key == "event"
    then f.event
    else if key == "event_prefix"
    then f.event_prefix
    else if key == "kind"
    then f.kind
    else if key == "severity"
    then f.severity
    else if key == "correlation_id"
    then f.correlation_id
    else if key == "since"
    then f.since
    else if key == "until"
    then f.until
    else if key == "order"
    then some f.order
    else if key == "limit"
    then some (str_of_int f.limit)
    else if key == "cursor"
    then f.cursor
    else none

-- How the iteration ends.
pub data Ended : Type 0 where
  complete raised out_of_fuel : Ended

pub record Iterated : Type 0 where
  pub events : List Wire
  pub ended : Ended

-- `params = dict(self._params); params["cursor"] = self.next_cursor`
abbrev pub with_cursor : Option String → Parameters → Parameters
with_cursor cursor params key = if key == "cursor" then cursor else params key

-- `get params` is the answer to `GET /api/v1/events`, none where the request raises.
module _ (starts_with : String → String → Bool)
    (get : Parameters → Option (EventPage starts_with)) where
  -- `page.next()`: the parameters that the next page is asked for with.
  unfoldable pub next : Parameters → EventPage starts_with → Option Parameters
  next params page = if page.has_more then some (with_cursor page.next_cursor params) else none

  abbrev pub yields : List Wire → Iterated → Iterated
  yields events rest = record rest { events = events ++ rest.events }

  abbrev pub ends : Ended → Iterated
  ends e = record { events = []; ended = e }

  -- The loop of `autopage`, where a page has been asked for: one page to a unit of fuel.
  unfoldable pub autopage : ℕ → Parameters → Option (EventPage starts_with) → Iterated
  autopage zero params page = ends out_of_fuel
  autopage (suc fuel) params none = ends raised
  autopage (suc fuel) params (some page) = yields page.events (elim (next params page) [
    | none ↦ ends complete
    | some params' ↦ autopage fuel params' (get params')
  ])

  -- `iter_events(**kw)`
  unfoldable pub iter_events : ℕ → (ℤ → String) → Filters → Iterated
  iter_events fuel str_of_int f =
      let params = history_params str_of_int f in autopage fuel params (get params)
