-- ===== src/RateLimit/Waiting.antt =====
-- What `retry_after` promises, and what it cannot.
use native.Mathlib.Nat.{div-add-mod, mod-lt}
use beacn.Base.{
  ℕ, ◌+◌, ◌*◌, ◌-◌, ◌/◌, ◌%◌, ◌≤◌, ◌<◌, ◌≡◌, ◌≢◌, ◌⊎◌, inl, inr, refl, ◌∙◌, String, List, [], ◌∷◌,
  All, false, ◌==◌, some, arith,
}
use beacn.Base.Int.{◌+ℤ◌, ◌-ℤ◌, pos_part, neg_part}
use beacn.Base.Dict.{lookup}
use beacn.RateLimit.{
  Bucket, Limiter, Outcome, admitted, limited, hundredths, bucket_at, refill, retry_after, settle,
  check, Request,
}
use beacn.RateLimit.Bounds.{
  IsSound, IsReady, worth, refill_range, bucket_at-IsSound, check_self, check_other, mul_mono,
}

-- Rounding to the nearest goes up where the rest is more than a half.
hundredths_cases :
    (num den : ℕ)
    → (num * 100 / den ≤ hundredths num den)
      × ((2 * (num * 100 % den) ≤ den) ⊎ (num * 100 / den + 1 ≤ hundredths num den))
hundredths_cases num den = ground arith

times_mono : (d a b : ℕ) → a ≤ b → d * a ≤ d * b
times_mono d a b h = grind arith

hundredths_bound : (num den : ℕ) → 0 < den → num * 200 ≤ den * (2 * hundredths num den + 1)
hundredths_bound num den h =
    rounded (hundredths num den) (hundredths_cases num den).0 (hundredths_cases num den).1
  where
    rounded :
        (w : ℕ)
        → num * 100 / den ≤ w
        → (2 * (num * 100 % den) ≤ den) ⊎ (num * 100 / den + 1 ≤ w)
        → num * 200 ≤ den * (2 * w + 1)
    rounded w low (inl down) =
        omega (arith, times_mono den (num * 100 / den) w low, div-add-mod (num * 100) den)
    rounded w low (inr up) = omega (
      arith,
      times_mono den (num * 100 / den + 1) w up,
      div-add-mod (num * 100) den,
      mod-lt (num * 100) h,
    )

retry_after_bound :
    (ticks : ℕ) (l : Limiter) (deficit : ℕ)
    → 0 < l.rate * ticks
    → deficit * 12000 ≤ l.rate * ticks * (2 * retry_after ticks l deficit + 1)
unfolding retry_after
retry_after_bound ticks l deficit h =
    ground (arith, hundredths_bound (deficit * 60) (l.rate * ticks) h)

settle_admits :
    (ticks : ℕ) (l : Limiter) (b : Bucket) (cost now : ℕ)
    → neg_part (refill ticks l b now) ≡ 0
    → cost * ticks ≤ pos_part (refill ticks l b now)
    → (settle ticks l b cost now).1 ≡ admitted
unfolding settle
settle_admits ticks l b cost now n h = ground arith

settle_refuses :
    (ticks : ℕ) (l : Limiter) (b : Bucket) (cost now : ℕ)
    → neg_part (refill ticks l b now) ≡ 0
    → (settle ticks l b cost now).1 ≢ admitted
    → (pos_part (refill ticks l b now) < cost * ticks)
      × ((settle ticks l b cost now).0 ≡ record { tokens = refill ticks l b now; updated = now })
      × ((settle ticks l b cost now).1
          ≡ limited (retry_after ticks l (cost * ticks - pos_part (refill ticks l b now))))
unfolding settle ◌-ℤ◌
settle_refuses ticks l b cost now n h = ground arith

refill-ge :
    (ticks : ℕ) (l : Limiter) (b : Bucket) (now need : ℕ)
    → IsSound ticks l.burst b now
    → need ≤ l.burst * ticks
    → need ≤ worth l.rate b now
    → need ≤ pos_part (refill ticks l b now)
unfolding refill ◌+ℤ◌
refill-ge ticks l b now need h cap e =
    let later = mul_mono b.updated now l.rate h.not_ahead in
    ground (arith, h.not_negative, h.within_burst)

settle_short :
    (ticks : ℕ) (l : Limiter) (b : Bucket) (cost now : ℕ)
    → neg_part (refill ticks l b now) ≡ 0
    → pos_part (refill ticks l b now) < cost * ticks
    → (settle ticks l b cost now).1 ≢ admitted
unfolding settle
settle_short ticks l b cost now n h = ground arith

settle_outcome :
    (ticks : ℕ) (l : Limiter) (key : String) (cost now : ℕ) {o : Outcome}
    → (check ticks l key cost now).1 ≡ o
    → (settle ticks l (bucket_at ticks l key now) cost now).1 ≡ o
unfolding check
settle_outcome ticks l key cost now e = e

-- The bucket that a refusal leaves is worth the cost of the request once the wait is over.
waited :
    (ticks rate need have now wait r : ℕ)
    → (need - have) * 12000 ≤ rate * ticks * (2 * r + 1)
    → (2 * r + 1) * ticks ≤ wait * 12000
    → need ≤ have + ((now + wait) * rate - now * rate)
waited ticks rate need have now wait r d w =
    omega (arith, times_mono rate ((2 * r + 1) * ticks) (wait * 12000) w)

retry_check :
    (ticks : ℕ) (l : Limiter) (key : String) (cost now : ℕ) (b : Bucket) (later : ℕ)
    → (settle ticks l (bucket_at ticks l key now) cost now).0 ≡ b
    → (check ticks (check ticks l key cost now).0 key cost later).1
      ≡ (settle ticks l b cost later).1
retry_check ticks l key cost now b later e =
    unfold check in rw (own, e) (unfold settle retry_after refill in refl)
  where
    own :
        lookup key (check ticks l key cost now).0.buckets
        ≡ some (settle ticks l (bucket_at ticks l key now) cost now).0
    own = check_self ticks l key cost now

-- The limiter behind a run of requests.
pub run : ℕ → Limiter → List Request → Limiter
run ticks l [] = l
run ticks l (r ∷ rs) = run ticks (check ticks l r.key r.cost r.now).0 rs

-- Requests of other keys leave the rate, the burst and the bucket of a key.
run-other :
    (ticks : ℕ) (l : Limiter) (key : String) (rs : List Request)
    → All (λ r. (r.key == key) ≡ false) rs
    → ((run ticks l rs).rate ≡ l.rate)
      × ((run ticks l rs).burst ≡ l.burst)
      × (lookup key (run ticks l rs).buckets ≡ lookup key l.buckets)
unfolding run check
run-other ticks l key [] apart = (refl, refl, refl)
run-other ticks l key (r ∷ rs) apart =
    let (rate, burst, kept) = run-other ticks (check ticks l r.key r.cost r.now).0 key rs apart.1 in
    (rate, burst, kept ∙ check_other ticks l r.key key r.cost r.now apart.0)

-- The outcome of a request depends on the rate, the burst and the bucket of its key.
check-outcome :
    (ticks : ℕ) (l m : Limiter) (key : String) (cost now : ℕ)
    → m.rate ≡ l.rate
    → m.burst ≡ l.burst
    → lookup key m.buckets ≡ lookup key l.buckets
    → (check ticks m key cost now).1 ≡ (check ticks l key cost now).1
unfolding check settle refill retry_after
check-outcome ticks l m key cost now rate burst same = rw (rate, burst, same) refl

-- What a key is told after its refusal and the time that it names.
admitted_then :
    (ticks : ℕ) (l : Limiter) (key : String) (cost now wait r : ℕ)
    → IsReady ticks l now
    → cost ≤ l.burst
    → 0 < l.rate * ticks
    → (check ticks l key cost now).1 ≡ limited r
    → (2 * r + 1) * ticks ≤ wait * 12000
    → (check ticks (check ticks l key cost now).0 key cost (now + wait)).1 ≡ admitted
admitted_then ticks l key cost now wait r ready fits flows refused w =
    let b = bucket_at ticks l key now in
    let have = refill ticks l b now in
    let sound = bucket_at-IsSound ticks l key now ready in
    let (plain, capped, _) = refill_range ticks l b now sound in
    let settled : (settle ticks l b cost now).1 ≡ limited r =
      settle_outcome ticks l key cost now refused in
    let (short, left, named) = settle_refuses ticks l b cost now plain (λ e. cc) in
    let same : r ≡ retry_after ticks l (cost * ticks - pos_part have) = cc in
    let bound = retry_after_bound ticks l (cost * ticks - pos_part have) flows in
    let kept : IsSound ticks l.burst (record { tokens = have; updated = now }) (now + wait) =
      record { not_negative = plain; within_burst = capped; not_ahead = omega arith } in
    retry_check ticks l key cost now (record { tokens = have; updated = now }) (now + wait) left
    ∙ settle_admits ticks l (record { tokens = have; updated = now }) cost (now + wait)
        (refill_range ticks l (record { tokens = have; updated = now }) (now + wait) kept).0
        (refill-ge ticks l (record { tokens = have; updated = now }) (now + wait) (cost * ticks)
          kept (mul_mono cost l.burst ticks fits)
          (waited ticks l.rate (cost * ticks) (pos_part have) now wait r (rw same bound) w))

-- A refused request of at most a burst is admitted, if its key makes no other in between, once the
-- time that the refusal names has passed, with half of a hundredth of a second more for its rounding
-- (`wait` ticks; a second has `ticks / 60`), whatever requests other keys make in between; the limiter
-- refills, and its buckets are sound.
pub retry_after_suffices :
    (ticks : ℕ) (l : Limiter) (key : String) (cost now wait r : ℕ) (between : List Request)
    → IsReady ticks l now
    → cost ≤ l.burst
    → 0 < l.rate * ticks
    → (check ticks l key cost now).1 ≡ limited r
    → (2 * r + 1) * ticks ≤ wait * 12000
    → All (λ other. (other.key == key) ≡ false) between
    → (check ticks (run ticks (check ticks l key cost now).0 between) key cost (now + wait)).1
      ≡ admitted
retry_after_suffices ticks l key cost now wait r between ready fits flows refused w apart =
    let refusing = (check ticks l key cost now).0 in
    let (rate, burst, kept) = run-other ticks refusing key between apart in
    check-outcome ticks refusing (run ticks refusing between) key cost (now + wait) rate burst kept
    ∙ admitted_then ticks l key cost now wait r ready fits flows refused w

-- A request that costs more than a burst is refused at every time and in every sound state: waiting
-- does not help it.
pub oversized_refused :
    (ticks : ℕ) (l : Limiter) (key : String) (cost now : ℕ)
    → IsReady ticks l now
    → 0 < ticks
    → l.burst < cost
    → (check ticks l key cost now).1 ≢ admitted
oversized_refused ticks l key cost now ready t h e =
    let b = bucket_at ticks l key now in
    let (plain, capped, _) = refill_range ticks l b now (bucket_at-IsSound ticks l key now ready) in
    settle_short ticks l b cost now plain
      (omega (arith, capped, mul_mono (l.burst + 1) cost ticks (omega arith)))
      (settle_outcome ticks l key cost now e)
