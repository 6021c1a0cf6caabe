-- ===== src/Replay/Complete.antt =====
-- Nothing that is stored is lost on a consumer that replays, and a replay says when it is partial.
use beacn.Base.{
  ℕ, zero, suc, ◌<◌, ◌≡◌, refl, ap, ◌∙◌, Bool, false, ◌||◌, String, Option, none, some, arith,
  is_empty, str_ltb, length, keep, Option-cases, inl, inr, min,
}
use mathlib.Core.List.{map, map-append}
use beacn.Events.Wire.{stored_wire}
use beacn.Store.{Table}
use beacn.Store.Order.{ascending, IsAscending}
use beacn.Paging.{page_of, behind, follow}
use beacn.Paging.Complete.{follow_complete, HaveKeys, keep-InOrder, All-keep_of, whole_page}
use beacn.Replay.{replay, replay_limit, catch_up, row_id, of_topic}

-- The pages that the consumer asks for are the pages of the topic's rows.
catch_up_lem :
    (fuel max_events : ℕ) (include_meta : Bool) (environment topic : String) (since : Option String)
    (limit : Option ℕ) (events : Table)
    → catch_up fuel max_events include_meta environment topic since limit events
      ≡ map (stored_wire include_meta) (
          follow row_id str_ltb fuel
            (replay_limit max_events limit)
            (keep (of_topic environment topic) events)
            since)
unfolding catch_up replay follow
catch_up_lem zero max_events include_meta environment topic since limit events = refl
catch_up_lem (suc fuel) max_events include_meta environment topic since limit events =
    let base = keep (of_topic environment topic) events in
    let page =
      page_of row_id (replay_limit max_events limit) (keep (behind row_id str_ltb since) base) in
    elim (Option-cases page.next_cursor) [
      | inl last ↦ rw (last, map-append) refl
      | inr (c, more) ↦
          rw
            (
              more,
              map-append,
              catch_up_lem fuel max_events include_meta environment topic (some c) limit events,
            )
            refl
    ]

or-eq-false-right : (a b : Bool) → (a || b) ≡ false → b ≡ false
or-eq-false-right a b h = ground arith

some_page :
    (max_events : ℕ) (limit : Option ℕ)
    → 0 < max_events
    → (n : ℕ) × (replay_limit max_events limit ≡ suc n)
unfolding replay_limit
some_page (suc m) none h = (m, refl)
some_page (suc m) (some zero) h = (m, refl)
some_page (suc m) (some (suc n)) h = (min m n, omega arith)
some_page zero limit h = absurd (omega arith)

-- A consumer that asks again with each `next_since`, in any page size, receives the wire form of
-- exactly the stored events of its environment and topic behind its cursor, each once and in the
-- order of their ids; one request to each such event and one more are enough. The store is in the
-- order of its ids, none of which is empty, and `replay_max_events` is positive.
pub catch_up_complete :
    (fuel max_events : ℕ) (include_meta : Bool) (environment topic : String) (since : Option String)
    (limit : Option ℕ) (events : Table)
    → 0 < max_events
    → IsAscending events
    → HaveKeys row_id str_ltb ascending events
    → length (keep (behind row_id str_ltb since) (keep (of_topic environment topic) events)) < fuel
    → catch_up fuel max_events include_meta environment topic since limit events
      ≡ map
          (stored_wire include_meta)
          (keep (behind row_id str_ltb since) (keep (of_topic environment topic) events))
catch_up_complete fuel max_events include_meta environment topic since limit events positive sorted
      named enough =
    let (n, size) = some_page max_events limit positive in
    let base = keep (of_topic environment topic) events in
    let pages : follow row_id str_ltb fuel (replay_limit max_events limit) base since
        ≡ keep (behind row_id str_ltb since) base =
      ap (λ l. follow row_id str_ltb fuel l base since) size
      ∙ follow_complete row_id str_ltb ascending base
          (keep-InOrder row_id str_ltb ascending (of_topic environment topic) events sorted)
          (All-keep_of row_id str_ltb ascending (λ r. is_empty r.id ≡ false)
            (of_topic environment topic) events named)
          fuel n since enough in
    catch_up_lem fuel max_events include_meta environment topic since limit events
    ∙ ap (map (stored_wire include_meta)) pages

-- A replay that is not reported as truncated holds every stored event of its environment and topic
-- behind the cursor, and names no further cursor.
pub untruncated_whole :
    (max_events : ℕ) (include_meta : Bool) (environment topic : String) (since : Option String)
    (limit : Option ℕ) (events : Table)
    → (replay max_events include_meta environment topic since limit events).truncated ≡ false
    → ((replay max_events include_meta environment topic since limit events).events
        ≡ map
            (stored_wire include_meta)
            (keep (behind row_id str_ltb since) (keep (of_topic environment topic) events)))
      × ((replay max_events include_meta environment topic since limit events).next_since ≡ none)
unfolding replay
untruncated_whole max_events include_meta environment topic since limit events h =
    let xs = keep (behind row_id str_ltb since) (keep (of_topic environment topic) events) in
    let page =
      whole_page row_id str_ltb ascending (replay_limit max_events limit) xs
        (or-eq-false-right _ _ h) in
    (ap (λ p. map (stored_wire include_meta) p.items) page, ap (λ p. p.next_cursor) page)
