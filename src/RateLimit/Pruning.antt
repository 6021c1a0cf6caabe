-- ===== src/RateLimit/Pruning.antt =====
-- Dropping idle buckets changes no decision.
use beacn.Base.{
  ℕ, ◌+◌, ◌*◌, ◌-◌, ◌≤◌, ◌≡◌, refl, ap, ◌∙◌, sym, not, String, some, arith, ltb, Option-cases, inl,
  inr, Bool-cases, ltb→lt,
}
use beacn.Base.Int.{pos, ◌+ℤ◌}
use beacn.Base.Dict.{lookup, retain, IsUnique, if_passes, lookup-retain, insert-IsUnique}
use beacn.RateLimit.{Bucket, Limiter, Outcome, bucket_at, refill, retry_after, settle, check, prune}
use beacn.RateLimit.Bounds.{IsSound, IsReady, IsReady-later, mul_mono}

pub check-IsUnique :
    (ticks : ℕ) (l : Limiter) (key : String) (cost now : ℕ)
    → IsUnique l.buckets
    → IsUnique (check ticks l key cost now).0.buckets
unfolding check
check-IsUnique ticks l key cost now u =
    insert-IsUnique key (settle ticks l (bucket_at ticks l key now) cost now).0 l.buckets u

full :
    (ticks : ℕ) (l : Limiter) (now : ℕ)
    → refill ticks l (record { tokens = pos (l.burst * ticks); updated = now }) now
      ≡ pos (l.burst * ticks)
unfolding refill ◌+ℤ◌
full ticks l now = ground arith

-- An idle bucket is full again.
idle_full :
    (ticks : ℕ) (l : Limiter) (b : Bucket) (now : ℕ)
    → IsSound ticks l.burst b now
    → l.burst * ticks ≤ now * l.rate - b.updated * l.rate
    → refill ticks l b now ≡ pos (l.burst * ticks)
unfolding refill ◌+ℤ◌
idle_full ticks l b now h idle =
    let later = mul_mono b.updated now l.rate h.not_ahead in
    ground (arith, h.not_negative, h.within_burst)

-- `settle` reads the bucket only by what it holds now.
settle_same :
    (ticks : ℕ) (l : Limiter) (b b' : Bucket) (cost now : ℕ)
    → refill ticks l b now ≡ refill ticks l b' now
    → settle ticks l b cost now ≡ settle ticks l b' cost now
unfolding settle
settle_same ticks l b b' cost now e = rw e

-- `settle` does not read the other buckets.
settle-prune :
    (ticks : ℕ) (l : Limiter) (older_than now : ℕ) (b : Bucket) (cost later : ℕ)
    → settle ticks (prune ticks l older_than now) b cost later ≡ settle ticks l b cost later
unfolding settle prune refill retry_after
settle-prune ticks l older_than now b cost later = refl

bucket_at-prune :
    (ticks : ℕ) (l : Limiter) (key : String) (older_than now later : ℕ)
    → IsReady ticks l now
    → IsUnique l.buckets
    → l.burst * ticks ≤ older_than * l.rate
    → now ≤ later
    → refill ticks l (bucket_at ticks (prune ticks l older_than now) key later) later
      ≡ refill ticks l (bucket_at ticks l key later) later
unfolding prune
bucket_at-prune ticks l key older_than now later ready unique idle h =
    elim (Option-cases (lookup key l.buckets)) [
      | inl new ↦ rw (pruned, new)
      | inr (b, known) ↦ elim (Bool-cases (ltb (b.updated + older_than) now)) [
        | inl stale ↦
            rw (pruned, known, stale)
              (full ticks l later
                ∙ sym (
                    idle_full ticks l b later (sound b known) (
                      omega (
                        arith,
                        idle,
                        ltb→lt _ _ stale,
                        mul_mono (b.updated + older_than) later l.rate
                            (omega (arith, ltb→lt _ _ stale)),
                      ))))
        | inr used ↦ rw (pruned, known, used)
      ]
    ]
  where
    pruned :
        lookup key (retain (λ b. not (ltb (b.updated + older_than) now)) l.buckets)
        ≡ if_passes (λ b. not (ltb (b.updated + older_than) now)) (lookup key l.buckets)
    pruned = lookup-retain _ key l.buckets unique

    sound : (b : Bucket) → lookup key l.buckets ≡ some b → IsSound ticks l.burst b later
    sound b known = (IsReady-later ticks l now later h ready).at_key key b known

-- Where a full burst comes in within `older_than`, dropping the buckets that were idle for longer
-- changes no decision on a later request, nor its `retry_after`; the buckets are sound.
pub prune-check :
    (ticks : ℕ) (l : Limiter) (key : String) (older_than now cost later : ℕ)
    → IsReady ticks l now
    → IsUnique l.buckets
    → l.burst * ticks ≤ older_than * l.rate
    → now ≤ later
    → (check ticks (prune ticks l older_than now) key cost later).1
      ≡ (check ticks l key cost later).1
unfolding check
prune-check ticks l key older_than now cost later ready unique idle h =
    ap (λ (r : Bucket × Outcome). r.1)
      (settle-prune ticks l older_than now
          (bucket_at ticks (prune ticks l older_than now) key later) cost later
        ∙ settle_same ticks l (bucket_at ticks (prune ticks l older_than now) key later)
            (bucket_at ticks l key later) cost later
            (bucket_at-prune ticks l key older_than now later ready unique idle h))
