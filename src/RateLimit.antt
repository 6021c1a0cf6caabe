-- ===== src/RateLimit.antt =====
-- app/services/ratelimit.py: the token bucket of each API key. The program computes with floats; the
-- model is exact. A clock tick is any fixed part of a minute, `ticks` of them to the minute, and a
-- token is `ticks` units, so that a bucket gains `rate` units with each tick and a request of cost
-- `c` takes `c * ticks` of them. Rounding of floats is left out.
pub mod Bounds
pub mod Waiting
pub mod Pruning
mod Tests
use beacn.Base.{
  ℕ, zero, suc, ◌+◌, ◌*◌, ◌-◌, ◌/◌, ◌%◌, Bool, true, false, not, String, List, [], ◌∷◌, Option,
  none, some, ltb, leb, eqb, or_default, ◌==◌, if◌then◌else◌,
}
use beacn.Base.Int.{ℤ, pos, negsuc, sub_ℕ, ◌+ℤ◌, ◌-ℤ◌, ltb_ℤ, pos_part, neg_part}
use beacn.Base.Dict.{Dict, lookup, insert, retain}

pub record Bucket : Type 0 where
  pub tokens : ℤ
  pub updated : ℕ

-- `rate` is in events to the minute.
pub record Limiter : Type 0 where
  pub rate : ℕ
  pub burst : ℕ
  pub buckets : Dict Bucket

-- `a or b`, of integers that may be None.
abbrev or_config : Option ℕ → ℕ → ℕ
or_config none d = d
or_config (some n) d = if eqb n 0 then d else n

-- `TokenBucketLimiter(rate_per_minute, burst)`, with the two settings of the configuration.
pub limiter : (config_rate config_burst : ℕ) → (rate_per_minute burst : Option ℕ) → Limiter
limiter config_rate config_burst rate_per_minute burst = record {
  rate = or_config rate_per_minute config_rate;
  burst = or_config burst config_burst;
  buckets = [];
}

pub data Outcome : Type 0 where
  admitted : Outcome
  -- `RateLimitedError`, with `retry_after` in hundredths of a second.
  limited : (retry_after : ℕ) → Outcome

-- `round(num / den, 2)` in hundredths: to the nearest, a half to the even neighbour.
abbrev pub hundredths : ℕ → ℕ → ℕ
hundredths num den =
    let q = num * 100 / den in
    let r = num * 100 % den in
    if ltb (2 * r) den then q else if ltb den (2 * r) then q + 1 else q + q % 2

abbrev pub min_ℤ : ℤ → ℤ → ℤ
min_ℤ a b = if ltb_ℤ b a then b else a

module _ (ticks : ℕ) where
  -- The bucket of a key, full where the key is new.
  abbrev pub bucket_at : Limiter → String → ℕ → Bucket
  bucket_at l key now =
      or_default (lookup key l.buckets) (record { tokens = pos (l.burst * ticks); updated = now })

  -- What the bucket holds now: what it held and what came in since, up to the burst.
  unfoldable pub refill : Limiter → Bucket → ℕ → ℤ
  refill l b now =
      min_ℤ (pos (l.burst * ticks)) (b.tokens +ℤ sub_ℕ (now * l.rate) (b.updated * l.rate))

  -- `max(0.1, deficit / self.rate) if self.rate else 60.0`, rounded; the deficit is in units, and a
  -- second has `ticks / 60` ticks.
  unfoldable pub retry_after : Limiter → ℕ → ℕ
  retry_after l deficit =
      if eqb l.rate 0
      then 6000
      else if ltb (deficit * 60 * 10) (l.rate * ticks)
      then 10
      else hundredths (deficit * 60) (l.rate * ticks)

  -- The body of `check` on the bucket of the key: what it leaves, and whether it raises.
  unfoldable pub settle : Limiter → Bucket → ℕ → ℕ → Bucket × Outcome
  settle l b cost now =
      let have = refill l b now in
      if ltb_ℤ have (pos (cost * ticks))
      then (
        record { tokens = have; updated = now },
        limited (retry_after l (pos_part (pos (cost * ticks) -ℤ have))),
      )
      else (record { tokens = have -ℤ pos (cost * ticks); updated = now }, admitted)

  -- `check(key, cost, now=now)`: the limiter that it leaves, and whether it raised.
  unfoldable pub check : Limiter → String → ℕ → ℕ → Limiter × Outcome
  check l key cost now =
      let (b, outcome) = settle l (bucket_at l key now) cost now in
      (record l { buckets = insert key b l.buckets }, outcome)

  -- `prune(older_than)`, `older_than` in ticks.
  pub prune : Limiter → ℕ → ℕ → Limiter
  prune l older_than now = record l {
    buckets = retain (λ b. not (ltb (b.updated + older_than) now)) l.buckets;
  }

pub record Request : Type 0 where
  pub key : String
  pub cost : ℕ
  pub now : ℕ

abbrev pub cost_if : Outcome → ℕ → ℕ
cost_if admitted cost = cost
cost_if (limited r) cost = 0

-- The events that a run of requests gets admitted for one key.
pub spent : ℕ → Limiter → List Request → String → ℕ
spent ticks l [] key = 0
spent ticks l (r ∷ rs) key =
    let (l', outcome) = check ticks l r.key r.cost r.now in
    (if r.key == key then cost_if outcome r.cost else 0) + spent ticks l' rs key
