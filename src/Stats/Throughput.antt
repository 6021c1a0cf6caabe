-- ===== src/Stats/Throughput.antt =====
-- The series counts the events of each minute.
use beacn.Base.{
  ◌≡◌, refl, ap, ap₂, ◌∙◌, ℕ, zero, suc, ◌+◌, ◌*◌, Bool, true, false, ◌&&◌, not, String, List, [],
  ◌∷◌, map, Option, none, some, leb, ltb, eqb, ◌==◌, if◌then◌else◌, arith,
}
use beacn.Base.Int.{ℤ, pos, negsuc, ◌+ℤ◌, ◌-ℤ◌, pos_part, neg_part, ltb_ℤ, -ℤ_parts, +ℤ_parts}
use beacn.Events.Model.{Time}
use beacn.Store.{Table}
use beacn.Stats.{
  microseconds_per_minute, elapsed, scan, Buckets, count_at, bump, minute_of, fill, range_from,
  minute_start, throughput_series,
}

-- How many of the numbers lie in the i-th minute.
unfoldable pub count_in : ℕ → List ℕ → ℕ
count_in i [] = 0
count_in i (n ∷ ns) =
    let rest = count_in i ns in
    if leb (i * microseconds_per_minute) n && ltb n (suc i * microseconds_per_minute)
    then suc rest
    else rest

count_at-bump :
    (i idx : ℕ) (buckets : Buckets)
    → count_at i (bump idx buckets)
      ≡ (if eqb idx i then suc (count_at i buckets) else count_at i buckets)
unfolding count_at bump
count_at-bump i idx [] = ground arith
count_at-bump i idx ((j, n) ∷ buckets) = ground (arith, count_at-bump i idx buckets)

minute_of_lem :
    (i n : ℕ)
    → eqb (minute_of n) i
      ≡ (leb (i * microseconds_per_minute) n && ltb n (suc i * microseconds_per_minute))
minute_of_lem i n = ground arith

count_at-fill :
    (i : ℕ) (ns : List ℕ) (buckets : Buckets)
    → count_at i (fill ns buckets) ≡ count_in i ns + count_at i buckets
unfolding fill count_in
count_at-fill i [] buckets = omega arith
count_at-fill i (n ∷ ns) buckets = ground (
  arith,
  count_at-fill i ns (bump (minute_of n) buckets),
  count_at-bump i (minute_of n) buckets,
  minute_of_lem i n,
)

count_at-fill-none : (i : ℕ) (ns : List ℕ) → count_at i (fill ns []) ≡ count_in i ns
unfolding count_at
count_at-fill-none i ns = omega (arith, count_at-fill i ns [])

map-same : (f g : ℕ → Time × ℕ) → ((i : ℕ) → f i ≡ g i) → (is : List ℕ) → map f is ≡ map g is
map-same f g same [] = refl
map-same f g same (i ∷ is) = ap₂ (λ x xs. x ∷ xs) (same i) (map-same f g same is)

abbrev pub total : List (Time × ℕ) → ℕ
total [] = 0
total ((at, n) ∷ series) = n + total series

-- How many of the numbers are below a bound.
abbrev count_below : ℕ → List ℕ → ℕ
count_below bound [] = 0
count_below bound (n ∷ ns) =
    let rest = count_below bound ns in if ltb n bound then suc rest else rest

count_below-minute :
    (i : ℕ) (ns : List ℕ)
    → count_below (suc i * microseconds_per_minute) ns
      ≡ count_in i ns + count_below (i * microseconds_per_minute) ns
unfolding count_in
count_below-minute i [] = omega arith
count_below-minute i (n ∷ ns) = ground (arith, count_below-minute i ns)

total-range :
    (start : Time) (ns : List ℕ) (i minutes : ℕ)
    → total (map (λ j. (minute_start start j, count_in j ns)) (range_from i minutes))
        + count_below (i * microseconds_per_minute) ns
      ≡ count_below ((i + minutes) * microseconds_per_minute) ns
unfolding range_from
total-range start ns i zero =
    let same : i * microseconds_per_minute ≡ (i + 0) * microseconds_per_minute = omega arith in
    grind arith
total-range start ns i (suc minutes) =
    let same : (suc i + minutes) * microseconds_per_minute
        ≡ (i + suc minutes) * microseconds_per_minute =
      omega arith in
    grind (arith, count_below-minute i ns, total-range start ns (suc i) minutes)

count_below-none : (ns : List ℕ) → count_below 0 ns ≡ 0
count_below-none [] = refl
count_below-none (n ∷ ns) = ground (arith, count_below-none ns)

-- How many events of an environment were published at a time of `[from, to)`.
unfoldable pub published_in : Time → Time → String → Table → ℕ
published_in from to environment [] = 0
published_in from to environment (row ∷ rows) =
    let rest = published_in from to environment rows in
    if row.environment == environment
      && (not (ltb_ℤ row.published_at from) && ltb_ℤ row.published_at to)
    then suc rest
    else rest

-- Whether a time that the scan keeps is so long after its start, and whether it is earlier.
abbrev at_least : ℕ → Option ℕ → Bool
at_least k none = false
at_least k (some n) = leb k n

abbrev below : ℕ → Option ℕ → Bool
below k none = true
below k (some n) = ltb n k

at_least_lem :
    (k : ℕ) (t start : Time) → not (ltb_ℤ t (start +ℤ pos k)) ≡ at_least k (elapsed (t -ℤ start))
at_least_lem k t start =
    go (t -ℤ start) (start +ℤ pos k) (-ℤ_parts t start) (+ℤ_parts start (pos k))
  where
    go :
        (d e : ℤ)
        → pos_part d + neg_part t + pos_part start ≡ neg_part d + pos_part t + neg_part start
        → pos_part e + neg_part start + 0 ≡ neg_part e + pos_part start + k
        → not (ltb_ℤ t e) ≡ at_least k (elapsed d)
    go (pos n) e h g = ground arith
    go (negsuc n) e h g = ground arith

below_lem : (k : ℕ) (t start : Time) → ltb_ℤ t (start +ℤ pos k) ≡ below k (elapsed (t -ℤ start))
below_lem k t start = go (t -ℤ start) (start +ℤ pos k) (-ℤ_parts t start) (+ℤ_parts start (pos k))
  where
    go :
        (d e : ℤ)
        → pos_part d + neg_part t + pos_part start ≡ neg_part d + pos_part t + neg_part start
        → pos_part e + neg_part start + 0 ≡ neg_part e + pos_part start + k
        → ltb_ℤ t e ≡ below k (elapsed d)
    go (pos n) e h g = ground arith
    go (negsuc n) e h g = ground arith

count_in-scan :
    (i : ℕ) (start : Time) (environment : String) (events : Table)
    → count_in i (scan start environment events)
      ≡ published_in (minute_start start i) (minute_start start (suc i)) environment events
unfolding count_in scan published_in
count_in-scan i start environment [] = refl
count_in-scan i start environment (row ∷ rows) =
    rw
      (
        at_least_lem (i * microseconds_per_minute) row.published_at start,
        below_lem (suc i * microseconds_per_minute) row.published_at start,
      )
      (ground (arith, count_in-scan i start environment rows))

count_below-scan :
    (start : Time) (minutes : ℕ) (environment : String) (events : Table)
    → count_below (minutes * microseconds_per_minute) (scan start environment events)
      ≡ published_in (minute_start start 0) (minute_start start minutes) environment events
unfolding scan published_in
count_below-scan start minutes environment [] = refl
count_below-scan start minutes environment (row ∷ rows) =
    rw
      (
        at_least_lem 0 row.published_at start,
        below_lem (minutes * microseconds_per_minute) row.published_at start,
      )
      (ground (arith, count_below-scan start minutes environment rows))

total_of :
    (start : Time) (environment : String) (minutes : ℕ) (events : Table)
    → total (
        map
          (λ i. (minute_start start i, count_in i (scan start environment events)))
          (range_from 0 minutes))
      ≡ published_in (minute_start start 0) (minute_start start minutes) environment events
total_of start environment minutes events =
    let ns = scan start environment events in
    let same : (0 + minutes) * microseconds_per_minute ≡ minutes * microseconds_per_minute =
      omega arith in
    grind (
      arith,
      total-range start ns 0 minutes,
      count_below-none ns,
      count_below-scan start minutes environment events,
    )

-- The series names each of the minutes once, in order, with the number of the events of the
-- environment that were published in it, its start included and its end excluded. Together the
-- minutes count each such event from the start of the first to the end of the last once.
pub throughput_series_lem :
    (now : Time) (environment : String) (minutes : ℕ) (events : Table)
    → let start = now -ℤ pos (minutes * microseconds_per_minute) in
      (throughput_series now environment minutes events
        ≡ map
            (λ i. (
              minute_start start i,
              published_in (minute_start start i) (minute_start start (suc i)) environment events,
            ))
            (range_from 0 minutes))
      × (total (throughput_series now environment minutes events)
          ≡ published_in (minute_start start 0) (minute_start start minutes) environment events)
unfolding throughput_series
throughput_series_lem now environment minutes events =
    let start = now -ℤ pos (minutes * microseconds_per_minute) in
    let ns = scan start environment events in
    let counted : throughput_series now environment minutes events
        ≡ map (λ i. (minute_start start i, count_in i ns)) (range_from 0 minutes) =
      map-same (λ i. (minute_start start i, count_at i (fill ns [])))
        (λ i. (minute_start start i, count_in i ns))
        (λ i. ap (λ n. (minute_start start i, n)) (count_at-fill-none i ns))
        (range_from 0 minutes) in
    let seen : (map (λ i. (minute_start start i, count_in i ns)) (range_from 0 minutes)
        ≡ map
            (λ i. (
              minute_start start i,
              published_in (minute_start start i) (minute_start start (suc i)) environment events,
            ))
            (range_from 0 minutes)) =
      map-same (λ i. (minute_start start i, count_in i ns))
        (λ i. (
          minute_start start i,
          published_in (minute_start start i) (minute_start start (suc i)) environment events,
        ))
        (λ i. ap (λ n. (minute_start start i, n)) (count_in-scan i start environment events))
        (range_from 0 minutes) in
    (counted ∙ seen, ap total counted ∙ total_of start environment minutes events)
