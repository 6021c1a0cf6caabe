-- ===== src/Stats/Tests.antt =====
-- Three events, two of them in one minute, and one of another environment.
use beacn.Base.{◌≡◌, refl, ℕ, suc, ◌*◌, [], ◌∷◌, map}
use beacn.Base.Int.{pos, ◌-ℤ◌, ◌+ℤ◌}
use beacn.Events.Model.{Time}
use beacn.Store.{Table}
use beacn.Store.Tests.{row_of}
use beacn.Stats.{
  microseconds_per_minute, scan, count_at, bump, fill, range_from, minute_start, throughput_series,
}
use beacn.Stats.Throughput.{published_in, total, throughput_series_lem}

abbrev minutes_in : ℕ → Time
minutes_in n = pos (n * microseconds_per_minute)

abbrev stored : Table
stored =
    record (row_of "evt_1" "orders") { published_at = minutes_in 1 }
    ∷ record (row_of "evt_2" "orders") { published_at = minutes_in 1 }
    ∷ record (row_of "evt_3" "orders") { published_at = minutes_in 2 }
    ∷ record (row_of "evt_4" "orders") { environment = "staging"; published_at = minutes_in 2 }
    ∷ []

of_three :
    throughput_series (minutes_in 3) "production" 3 stored
    ≡ (minutes_in 0, 0) ∷ (minutes_in 1, 2) ∷ (minutes_in 2, 1) ∷ []
unfolding throughput_series scan count_at bump fill range_from ◌-ℤ◌ ◌+ℤ◌
of_three = refl

throughput_series_lem_example :
    (throughput_series (minutes_in 3) "production" 3 stored
      ≡ map
          (λ i. (
            minute_start (minutes_in 3 -ℤ minutes_in 3) i,
            published_in
                (minute_start (minutes_in 3 -ℤ minutes_in 3) i)
                (minute_start (minutes_in 3 -ℤ minutes_in 3) (suc i))
                "production"
                stored,
          ))
          (range_from 0 3))
    × (total (throughput_series (minutes_in 3) "production" 3 stored)
        ≡ published_in
            (minute_start (minutes_in 3 -ℤ minutes_in 3) 0)
            (minute_start (minutes_in 3 -ℤ minutes_in 3) 3)
            "production"
            stored)
throughput_series_lem_example = throughput_series_lem (minutes_in 3) "production" 3 stored
