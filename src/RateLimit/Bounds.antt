-- ===== src/RateLimit/Bounds.antt =====
-- What a key can spend: never more than its burst and what its rate brings in.
use beacn.Base.{
  ℕ, ◌+◌, ◌*◌, ◌-◌, ◌≤◌, ◌≡◌, refl, ap, false, String, List, [], ◌∷◌, some, arith, eq_iff, ◌==◌,
  Bool-cases, Option-cases, eq_refl, ◌∙◌, inl, inr, if◌then◌else◌,
}
use beacn.Base.Int.{◌+ℤ◌, ◌-ℤ◌, pos_part, neg_part}
use beacn.Base.Dict.{lookup, insert, lookup-insert}
use beacn.RateLimit.{Bucket, Limiter, cost_if, bucket_at, refill, settle, check, Request, spent}

-- A bucket holds from nothing to a burst, and was last filled by now.
pub record IsSound (ticks burst : ℕ) (b : Bucket) (now : ℕ) : Type 0 where
  pub not_negative : neg_part b.tokens ≡ 0
  pub within_burst : pos_part b.tokens ≤ burst * ticks
  pub not_ahead : b.updated ≤ now

pub record IsReady (ticks : ℕ) (l : Limiter) (now : ℕ) : Type 0 where
  pub at_key :
      (key : String) (b : Bucket) → lookup key l.buckets ≡ some b → IsSound ticks l.burst b now

-- What a bucket can hold by now, were there no burst to cap it.
abbrev pub worth : ℕ → Bucket → ℕ → ℕ
worth rate b now = pos_part b.tokens + (now * rate - b.updated * rate)

pub mul_mono : (a b c : ℕ) → a ≤ b → a * c ≤ b * c
mul_mono a b c h = grind arith

pub refill_range :
    (ticks : ℕ) (l : Limiter) (b : Bucket) (now : ℕ)
    → IsSound ticks l.burst b now
    → (neg_part (refill ticks l b now) ≡ 0)
      × (pos_part (refill ticks l b now) ≤ l.burst * ticks)
      × (pos_part (refill ticks l b now) ≤ worth l.rate b now)
unfolding refill ◌+ℤ◌
refill_range ticks l b now h =
    let later = mul_mono b.updated now l.rate h.not_ahead in
    ground (arith, h.not_negative, h.within_burst)

pub settle_range :
    (ticks : ℕ) (l : Limiter) (b : Bucket) (cost now : ℕ)
    → IsSound ticks l.burst b now
    → IsSound ticks l.burst (settle ticks l b cost now).0 now
      × (pos_part (settle ticks l b cost now).0.tokens
            + cost_if (settle ticks l b cost now).1 cost * ticks
          ≤ worth l.rate b now)
      × ((settle ticks l b cost now).0.updated ≡ now)
unfolding settle ◌-ℤ◌
settle_range ticks l b cost now h = ground (arith, refill_range ticks l b now h)

pub bucket_at-IsSound :
    (ticks : ℕ) (l : Limiter) (key : String) (now : ℕ)
    → IsReady ticks l now
    → IsSound ticks l.burst (bucket_at ticks l key now) now
bucket_at-IsSound ticks l key now h = elim (Option-cases (lookup key l.buckets)) [
  | inl new ↦ rw new (omega arith)
  | inr (b, known) ↦ rw known (h.at_key key b known)
]

IsSound-later :
    (ticks : ℕ) (l : Limiter) (b : Bucket) (t now : ℕ)
    → t ≤ now
    → IsSound ticks l.burst b t
    → IsSound ticks l.burst b now
IsSound-later ticks l b t now h s = omega arith

pub IsReady-later :
    (ticks : ℕ) (l : Limiter) (t now : ℕ) → t ≤ now → IsReady ticks l t → IsReady ticks l now
IsReady-later ticks l t now h r = record {
  at_key = λ key b known. IsSound-later ticks l b t now h (r.at_key key b known);
}

-- Every request leaves each bucket between empty and full, and not ahead of the clock.
pub check-IsReady :
    (ticks : ℕ) (l : Limiter) (key : String) (cost now : ℕ)
    → IsReady ticks l now
    → IsReady ticks (check ticks l key cost now).0 now
unfolding check
check-IsReady ticks l key cost now h = record { at_key = λ j b known. at j b known }
  where
    settled : IsSound ticks l.burst (settle ticks l (bucket_at ticks l key now) cost now).0 now
    settled =
        (settle_range ticks l (bucket_at ticks l key now) cost now
          (bucket_at-IsSound ticks l key now h)).0

    at :
        (j : String) (b : Bucket)
        → lookup j (insert key (settle ticks l (bucket_at ticks l key now) cost now).0 l.buckets)
          ≡ some b
        → IsSound ticks l.burst b now
    at j b known = ground (
      arith,
      settled,
      h.at_key j b,
      lookup-insert key j (settle ticks l (bucket_at ticks l key now) cost now).0 l.buckets,
    )

-- What a key can hold at a time, were there no cap: its bucket's worth, or a burst if it is new.
abbrev pub credit : ℕ → Limiter → String → ℕ → ℕ
credit ticks l key now = worth l.rate (bucket_at ticks l key now) now

pub check_other :
    (ticks : ℕ) (l : Limiter) (key j : String) (cost now : ℕ)
    → (key == j) ≡ false
    → lookup j (check ticks l key cost now).0.buckets ≡ lookup j l.buckets
unfolding check
check_other ticks l key j cost now apart =
    lookup-insert key j (settle ticks l (bucket_at ticks l key now) cost now).0 l.buckets ∙ rw apart

pub check_self :
    (ticks : ℕ) (l : Limiter) (key : String) (cost now : ℕ)
    → lookup key (check ticks l key cost now).0.buckets
      ≡ some (settle ticks l (bucket_at ticks l key now) cost now).0
unfolding check
check_self ticks l key cost now =
    lookup-insert key key (settle ticks l (bucket_at ticks l key now) cost now).0 l.buckets
    ∙ rw (eq_refl key)

-- A key's credit grows with the clock by what its rate brings in.
credit_later :
    (ticks : ℕ) (l : Limiter) (key : String) (t now : ℕ)
    → t ≤ now
    → IsReady ticks l t
    → credit ticks l key now ≤ credit ticks l key t + (now * l.rate - t * l.rate)
credit_later ticks l key t now h r = elim (Option-cases (lookup key l.buckets)) [
  | inl new ↦ rw new (omega arith)
  | inr (b, known) ↦ rw known (
      omega (
        arith,
        (r.at_key key b known).not_ahead,
        mul_mono b.updated t l.rate (r.at_key key b known).not_ahead,
        mul_mono t now l.rate h,
      ))
]

-- The part of a request's cost that goes to a key.
abbrev cost_on : ℕ → Limiter → Request → String → ℕ
cost_on ticks l r key =
    if r.key == key then cost_if (check ticks l r.key r.cost r.now).1 r.cost else 0

own_credit :
    (ticks : ℕ) (l : Limiter) (key : String) (cost now : ℕ)
    → IsReady ticks l now
    → credit ticks (check ticks l key cost now).0 key now
        + cost_if (check ticks l key cost now).1 cost * ticks
      ≤ credit ticks l key now
own_credit ticks l key cost now h =
    let range =
      settle_range ticks l (bucket_at ticks l key now) cost now
        (bucket_at-IsSound ticks l key now h) in
    rw (check_self ticks l key cost now)
      (unfold check in omega (arith, range, ap (λ (u : ℕ). u * l.rate) range.2))

other_credit :
    (ticks : ℕ) (l : Limiter) (key j : String) (cost now : ℕ)
    → (key == j) ≡ false
    → credit ticks (check ticks l key cost now).0 j now ≡ credit ticks l j now
other_credit ticks l key j cost now apart =
    rw (check_other ticks l key j cost now apart) (unfold check in refl)

credit-check :
    (ticks : ℕ) (l : Limiter) (r : Request) (key : String)
    → IsReady ticks l r.now
    → credit ticks (check ticks l r.key r.cost r.now).0 key r.now + cost_on ticks l r key * ticks
      ≤ credit ticks l key r.now
credit-check ticks l r key h = elim (Bool-cases (r.key == key)) [
  | inl same ↦ rw (same, ← (eq_iff r.key key).0 same) (own_credit ticks l r.key r.cost r.now h)
  | inr apart ↦ rw apart (omega (arith, other_credit ticks l r.key key r.cost r.now apart))
]

-- The times of the requests do not go back.
abbrev pub Ordered : ℕ → List Request → Type 0
Ordered t [] = Unit
Ordered t (r ∷ rs) = (t ≤ r.now) × Ordered r.now rs

abbrev pub last_time : ℕ → List Request → ℕ
last_time t [] = t
last_time t (r ∷ rs) = last_time r.now rs

pub check_rate :
    (ticks : ℕ) (l : Limiter) (key : String) (cost now : ℕ)
    → (check ticks l key cost now).0.rate ≡ l.rate
unfolding check
check_rate ticks l key cost now = refl

last_time-le : (t : ℕ) (rs : List Request) → Ordered t rs → t ≤ last_time t rs
last_time-le t [] o = omega arith
last_time-le t (r ∷ rs) o = omega (arith, o.0, last_time-le r.now rs o.1)

distribute : (a b c : ℕ) → (a + b) * c ≡ a * c + b * c
distribute a b c = omega arith

-- Over any run of requests, of any keys in any order, whose times do not go back, the events admitted
-- for one key cost at most what its bucket holds at the start (a full burst if it is new) and what the
-- rate brings in up to the last request, whatever the other keys do; all buckets are sound at the
-- start.
pub spent-le-credit :
    (ticks t : ℕ) (l : Limiter) (rs : List Request) (key : String)
    → IsReady ticks l t
    → Ordered t rs
    → spent ticks l rs key * ticks ≤ credit ticks l key t + (last_time t rs * l.rate - t * l.rate)
unfolding spent check lookup
spent-le-credit ticks t l [] key h o = omega arith
spent-le-credit ticks t l (r ∷ rs) key h (later, o) =
    let ready : IsReady ticks l r.now = IsReady-later ticks l t r.now later h in
    let l' = (check ticks l r.key r.cost r.now).0 in
    let rest =
      spent-le-credit ticks r.now l' rs key (check-IsReady ticks l r.key r.cost r.now ready) o in
    omega (
      arith,
      rw (check_rate ticks l r.key r.cost r.now) at rest,
      credit-check ticks l r key ready,
      credit_later ticks l key t r.now later h,
      mul_mono t r.now l.rate later,
      mul_mono r.now (last_time r.now rs) l.rate (last_time-le r.now rs o),
      distribute (cost_on ticks l r key) (spent ticks l' rs key) ticks,
    )
