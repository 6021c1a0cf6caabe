-- ===== src/Sdk/Pages/Complete.antt =====
-- The client's iteration over the history, on the route that lists events, yields all that match.
use beacn.Base.{
  ℕ, ◌<◌, subst, fun_ext, ◌≡◌, refl, ap, sym, ◌∙◌, inl, inr, Bool, false, String, List, Option,
  none, some, arith, map, length, keep, All, is_empty,
}
use beacn.Base.Int.{ℤ}
use beacn.Events.Wire.{EventRow, Wire, stored_wire}
use beacn.Store.{Table}
use beacn.History.{
  HistoryQuery, row_id, EventPage, query, matches_query, descending_of, in_order, before_in,
  read_all,
}
use beacn.History.Complete.{read_all_complete}
use beacn.Errors.{Result, ok, err, ◌>>=◌}
use beacn.Notifications.{limit_of}
use beacn.Store.Order.{IsAscending}
use beacn.Events.Model.{Time}
use beacn.Auth.{Producer}
use beacn.Api.Lists.{Parameters, list_events, history_query, parse_query_time}
use beacn.Sdk.Pages.{Filters, history_params, complete, with_cursor, autopage, iter_events}
use beacn.Paging.{behind}
use beacn.Sdk.Pages.Steps.{Reads, with_own_cursor, length-map_wires, autopage-Reads}

-- What a request brings, none where it raises.
abbrev pub result_or_none : {A : Type 0} → Result A → Option A
result_or_none (ok a) = some a
result_or_none (err e) = none

-- Three parameters that are read one after the other.
read_parameters :
    {A B C D : Type 0} (m : Result A) (n : Result B) (o : Result C) (k : A → B → C → Result D)
    {a : A} {b : B} {c : C}
    → m ≡ ok a
    → n ≡ ok b
    → o ≡ ok c
    → result_or_none (m >>= λ a. n >>= λ b. o >>= λ c. k a b c) ≡ result_or_none (k a b c)
read_parameters m n o k e1 e2 e3 = rw (e1, e2, e3) refl

module _ (starts_with : String → String → Bool) where
  module _ (int_of : String → Option ℤ) (time_of : String → Option Time) (producer : Producer)
      (events : Table) where
    abbrev pub ask : Parameters → Option (EventPage starts_with)
    ask params = result_or_none (list_events int_of time_of starts_with producer params events)

    -- The rows of the history that filters ask for, behind their cursor and in their order.
    abbrev pub wanted : HistoryQuery → List EventRow
    wanted q = keep (behind row_id (before_in starts_with (descending_of starts_with q)) q.cursor) (
        keep (matches_query starts_with q)
          (in_order starts_with (descending_of starts_with q) events))

    module _ (str_of_int : ℤ → String) (f : Filters) (since until : Option Time)
        (read_since : parse_query_time time_of f.since ≡ ok since)
        (read_until : parse_query_time time_of f.until ≡ ok until)
        (limit_shown : is_empty (str_of_int f.limit) ≡ false)
        (limit_read : int_of (str_of_int f.limit) ≡ some f.limit) where
      abbrev pub asked : HistoryQuery
      asked = history_query producer (history_params str_of_int f) since until f.limit

      ask-answers :
          (c : Option String)
          → ask (with_cursor c (history_params str_of_int f))
            ≡ some (query starts_with false (record asked { cursor = c }) events)
      unfolding list_events history_params
      ask-answers c =
          read_parameters (parse_query_time time_of f.since) (parse_query_time time_of f.until)
            (limit_of int_of (some (str_of_int f.limit)))
            (λ since until limit. ok (
              query starts_with false
                (record (history_query producer (history_params str_of_int f) since until limit) {
                  cursor = c;
                })
                events))
            read_since read_until (rw (limit_shown, limit_read) refl)

      -- The client's iteration over the history, on the route that lists events, yields the wire form
      -- of exactly the stored events of the producer's environment that match the filters and stand
      -- behind the first cursor, each once and in the order that was asked for, and then ends; one
      -- request to each event and one more are enough. The times and the limit of the filters are read
      -- by the service as the client wrote them; the store is in the order of its ids, none empty.
      pub iter_events_complete :
          (fuel : ℕ)
          → IsAscending events
          → All (λ r. is_empty r.id ≡ false) events
          → length (wanted asked) < fuel
          → ((iter_events starts_with ask fuel str_of_int f).events
              ≡ map (stored_wire false) (wanted asked))
            × ((iter_events starts_with ask fuel str_of_int f).ended ≡ complete)
      unfolding iter_events
      iter_events_complete fuel sorted named enough =
          let params = history_params str_of_int f in
          let same_params = fun_ext (with_own_cursor params) in
          let first : ask params ≡ some (query starts_with false asked events) =
            ap ask (sym same_params) ∙ ask-answers (params "cursor") in
          let reads =
            autopage-Reads starts_with ask asked events fuel params (params "cursor") ask-answers in
          let all_read =
            read_all_complete starts_with fuel false asked events sorted named enough in
          let done =
            subst
              (λ page.
                Reads starts_with fuel (read_all starts_with fuel false asked events)
                  (autopage starts_with ask fuel params page))
              (sym first) reads in
          let count =
            ap (length {A = Wire}) (done.same ∙ all_read)
            ∙ length-map_wires starts_with (wanted asked) in
          (
            done.same ∙ all_read,
            elim done.or_many [
              | inl finished ↦ finished
              | inr many ↦ absurd (omega (arith, count, many, enough))
            ],
          )
