-- ===== src/Stats.antt =====
-- `throughput_series` of app/services/stats.py: the events of each of the last minutes.
pub mod Throughput
pub mod Tests
use beacn.Base.{
  ◌≡◌, refl, ap, ap₂, ℕ, zero, suc, ◌+◌, ◌*◌, ◌/◌, ◌≤◌, ◌<◌, Bool, true, false, ◌&&◌, String, List,
  [], ◌∷◌, map, Option, none, some, leb, ltb, eqb, ◌==◌, if◌then◌else◌, arith, Bool-cases, inl, inr,
}
use beacn.Base.Int.{ℤ, pos, negsuc, ◌+ℤ◌, ◌-ℤ◌}
use beacn.Events.Model.{Time}
use beacn.Events.Wire.{EventRow}
use beacn.Store.{Table}

abbrev pub microseconds_per_minute : ℕ
microseconds_per_minute = 60000000

-- `ts - start`, of a time that the filter `published_at__gte=start` keeps.
abbrev pub elapsed : ℤ → Option ℕ
elapsed (pos n) = some n
elapsed (negsuc n) = none

abbrev push_some : Option ℕ → List ℕ → List ℕ
push_some none rest = rest
push_some (some n) rest = n ∷ rest

-- The rows of the scan, each as its `ts - start`.
unfoldable pub scan : Time → String → Table → List ℕ
scan start environment [] = []
scan start environment (row ∷ rows) =
    let rest = scan start environment rows in
    if row.environment == environment
    then push_some (elapsed (row.published_at -ℤ start)) rest
    else rest

-- `buckets: dict[int, int]`
abbrev pub Buckets : Type 0
Buckets = List (ℕ × ℕ)

-- `buckets.get(idx, 0)`
unfoldable pub count_at : ℕ → Buckets → ℕ
count_at idx [] = 0
count_at idx ((j, n) ∷ buckets) = if eqb j idx then n else count_at idx buckets

-- `buckets[idx] = buckets.get(idx, 0) + 1`
unfoldable pub bump : ℕ → Buckets → Buckets
bump idx [] = (idx, 1) ∷ []
bump idx ((j, n) ∷ buckets) =
    let rest = bump idx buckets in if eqb j idx then (j, suc n) ∷ buckets else (j, n) ∷ rest

-- `int((ts - start).total_seconds() // 60)`
abbrev pub minute_of : ℕ → ℕ
minute_of n = n / microseconds_per_minute

-- The loop over the rows.
unfoldable pub fill : List ℕ → Buckets → Buckets
fill [] buckets = buckets
fill (n ∷ ns) buckets = fill ns (bump (minute_of n) buckets)

-- `range(i, i + n)`
unfoldable pub range_from : ℕ → ℕ → List ℕ
range_from i zero = []
range_from i (suc n) = i ∷ range_from (suc i) n

-- `start + timedelta(minutes=i)`
abbrev pub minute_start : Time → ℕ → Time
minute_start start i = start +ℤ pos (i * microseconds_per_minute)

-- `throughput_series(environment, minutes)`, with `now` the clock; a number of minutes is not negative.
unfoldable pub throughput_series : Time → String → ℕ → Table → List (Time × ℕ)
throughput_series now environment minutes events =
    let start = now -ℤ pos (minutes * microseconds_per_minute) in
    let buckets = fill (scan start environment events) [] in
    map (λ i. (minute_start start i, count_at i buckets)) (range_from 0 minutes)
