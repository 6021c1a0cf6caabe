-- ===== src/Replay/Tests.antt =====
-- Replays of a small table.
use beacn.Base.{◌≡◌, refl, arith, false, [], ◌∷◌, none, some, str_ltb, length, keep, ◌<◌}
use mathlib.Core.List.{map}
use beacn.Events.Wire.{stored_wire}
use beacn.Paging.{behind, page_of}
use beacn.Store.Tests.{row_of, four_rows, four_rows-IsAscending}
use beacn.Replay.{replay, replay_limit, catch_up, row_id, of_topic}
use beacn.Replay.Complete.{catch_up_complete}

first_page :
    (replay 1 false "production" "orders" (some "evt_1") none four_rows).next_since ≡ some "evt_2"
unfolding replay replay_limit page_of
first_page = refl

rows_behind :
    length (
      keep (behind row_id str_ltb (some "evt_1")) (keep (of_topic "production" "orders") four_rows))
    < 3
rows_behind = omega arith

catch_up_complete_example :
    catch_up 3 1 false "production" "orders" (some "evt_1") none four_rows
    ≡ map (stored_wire false) (row_of "evt_2" "orders" ∷ row_of "evt_4" "orders" ∷ [])
catch_up_complete_example =
    catch_up_complete 3 1 false "production" "orders" (some "evt_1") none four_rows (omega arith)
      four_rows-IsAscending (refl, (refl, (refl, (refl, tt)))) rows_behind

whole : (replay 5 false "production" "orders" (some "evt_1") none four_rows).truncated ≡ false
unfolding replay replay_limit page_of
whole = refl
