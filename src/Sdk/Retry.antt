-- ===== src/Sdk/Retry.antt =====
-- A request is tried as often as the policy allows, sleeps within its budget, and is sent once where it
-- is not known to be idempotent.
use beacn.Base.{
  ℕ, zero, suc, ◌+◌, ◌-◌, ◌*◌, ◌^◌, ◌≤◌, ◌<◌, min, max, ◌≡◌, ◌≢◌, refl, ap, ◌∙◌, Bool, true, false,
  ◌&&◌, [], Option, none, some, arith, length, All, leb, ltb, Bool-cases, ◌⊎◌, subst, and-eq-true,
  inl, inr, ltb→lt, leb→le, if◌then◌else◌,
}
use beacn.Base.Int.{ℤ}
use beacn.Sdk.{
  RetryPolicy, retry_policy, delay_for, should_retry, should_retry_failure, Reply, success,
  http_error, connection_error, raised, out_of_fuel, Next, finish, sleep_for, Outside, Run, slept,
  sleep_or_raise, next_of, attempts_from, request,
}
use beacn.Sdk.Errors.{ApiError}

-- A sleep that began at `s.0` and was for `s.1`.
abbrev pub FitsBudget : RetryPolicy → ℕ → ℕ × ℕ → Type 0
FitsBudget policy started s = (s.0 + s.1 ≤ started + policy.max_elapsed) × (s.1 ≤ policy.max_delay)

-- What a run keeps to from the attempt `n` on.
pub record IsBounded {W : Type 0} (policy : RetryPolicy) (started n : ℕ) (run : Run W)
    : Type 0 where
  pub ends : run.outcome ≢ out_of_fuel
  pub allowed : run.attempts ≤ policy.max_attempts
  pub slept_between : n + length run.sleeps ≡ run.attempts
  pub in_budget : All (FitsBudget policy started) run.sleeps

-- What is known when a request is tried again after the attempt `n`.
pub record TriesAgain (policy : RetryPolicy) (idempotent : Bool) (started n now delay : ℕ)
    : Type 0 where
  pub is_allowed : n < policy.max_attempts
  pub may_repeat : idempotent ≡ true
  pub fits : FitsBudget policy started (now, delay)

delay_for-le :
    (uniform : ℕ → ℕ → ℕ) (float_limit : ℕ) (policy : RetryPolicy) (n : ℕ) (after : Option ℤ)
    (delay : ℕ)
    → ((n b : ℕ) → uniform n b ≤ b)
    → delay_for uniform float_limit policy n after ≡ some delay
    → delay ≤ policy.max_delay
unfolding delay_for
delay_for-le uniform float_limit policy n (some after) delay within h = ground arith
delay_for-le uniform float_limit policy n none delay within h =
    let raw = min policy.max_delay (policy.base_delay * policy.multiplier ^ (n - 1)) in
    ground (arith, within n raw)

-- A sleep that is decided on fits the budget, if the delay fits the policy.
sleep_or_raise-fits :
    {W : Type 0} (o : Outside W) (policy : RetryPolicy) (idempotent : Bool) (started now delay : ℕ)
    (e : ApiError) (drawn : Option ℕ)
    → ((d : ℕ) → drawn ≡ some d → d ≤ policy.max_delay)
    → sleep_or_raise o policy idempotent started now e drawn ≡ sleep_for delay
    → FitsBudget policy started (now, delay)
sleep_or_raise-fits o policy idempotent started now delay e none small h = absurd (cc)
sleep_or_raise-fits o policy idempotent started now delay e (some d) small h =
    go (Bool-cases (leb (now + d) (started + policy.max_elapsed)))
  where
    go :
        (leb (now + d) (started + policy.max_elapsed) ≡ true)
          ⊎ (leb (now + d) (started + policy.max_elapsed) ≡ false)
        → FitsBudget policy started (now, delay)
    go (inl fits) =
        let same : sleep_for d ≡ sleep_for delay = rw fits at h in
        let d_is : d ≡ delay = cc in
        subst (λ d. FitsBudget policy started (now, d)) d_is
          (leb→le (now + d) (started + policy.max_elapsed) fits, small d refl)
    go (inr over) = let same : finish (raised e) ≡ sleep_for delay = rw over at h in absurd (cc)

module _ {W : Type 0} (o : Outside W) (policy : RetryPolicy) (idempotent : Bool) (started : ℕ)
    (within : (n b : ℕ) → o.uniform n b ≤ b) where
  retried :
      (test : Bool) (n now delay : ℕ) (e : ApiError) (after : Option ℤ)
      → (if test
          then sleep_or_raise o policy idempotent started now e
              (delay_for o.uniform o.float_limit policy n after)
          else finish (raised e))
        ≡ sleep_for delay
      → (test ≡ true → (n < policy.max_attempts) × (idempotent ≡ true))
      → TriesAgain policy idempotent started n now delay
  retried false n now delay e after h k = absurd (cc)
  retried true n now delay e after h k = record {
    is_allowed = (k refl).0;
    may_repeat = (k refl).1;
    fits =
        sleep_or_raise-fits o policy idempotent started now delay e
          (delay_for o.uniform o.float_limit policy n after)
          (λ d. delay_for-le o.uniform o.float_limit policy n after d within) h;
  }

  next_of-TriesAgain :
      (n now delay : ℕ) (reply : Reply)
      → next_of o policy idempotent started n now reply ≡ sleep_for delay
      → TriesAgain policy idempotent started n now delay
  unfolding next_of should_retry should_retry_failure
  next_of-TriesAgain n now delay (success v) h = absurd (cc)
  next_of-TriesAgain n now delay (http_error status body request_id) h =
      retried (should_retry policy n status idempotent) n now delay _ _ h (λ t. allowed_by t)
    where
      allowed_by :
          should_retry policy n status idempotent ≡ true
          → (n < policy.max_attempts) × (idempotent ≡ true)
      allowed_by t =
          let (first, rest) = and-eq-true (ltb n policy.max_attempts && idempotent) _ t in
          let (few, safe) = and-eq-true (ltb n policy.max_attempts) idempotent first in
          (ltb→lt n policy.max_attempts few, safe)
  next_of-TriesAgain n now delay (connection_error message) h =
      retried (should_retry_failure policy n idempotent) n now delay _ _ h (λ t. (
        ltb→lt n policy.max_attempts (and-eq-true (ltb n policy.max_attempts) idempotent t).0,
        (and-eq-true (ltb n policy.max_attempts) idempotent t).1,
      ))

  retried-ends :
      (test : Bool) (now : ℕ) (e : ApiError) (drawn : Option ℕ)
      → (if test then sleep_or_raise o policy idempotent started now e drawn else finish (raised e))
        ≢ finish out_of_fuel
  retried-ends false now e drawn h = absurd (cc)
  retried-ends true now e none h = absurd (cc)
  retried-ends true now e (some d) h = ground arith

  next_of-ends :
      (n now : ℕ) (reply : Reply)
      → next_of o policy idempotent started n now reply ≢ finish out_of_fuel
  unfolding next_of
  next_of-ends n now (success v) h = absurd (cc)
  next_of-ends n now (http_error status body request_id) h =
      retried-ends (should_retry policy n status idempotent) now _
        (delay_for o.uniform o.float_limit policy n _) h
  next_of-ends n now (connection_error message) h =
      retried-ends (should_retry_failure policy n idempotent) now _
        (delay_for o.uniform o.float_limit policy n none) h

  pub attempts_from-IsBounded :
      (fuel n : ℕ) (w : W)
      → n + fuel ≡ suc policy.max_attempts
      → 1 ≤ fuel
      → IsBounded policy started n (attempts_from o policy idempotent started fuel n w)
  unfolding attempts_from
  attempts_from-IsBounded zero n w total some_left = absurd (omega arith)
  attempts_from-IsBounded (suc fuel) n w total some_left =
      go (next_of o policy idempotent started n (o.time_of (o.send n w).1) (o.send n w).0) refl
        (λ delay few.
          attempts_from-IsBounded fuel (suc n) (o.sleep delay (o.send n w).1) (omega arith) few)
    where
      now : ℕ
      now = o.time_of (o.send n w).1

      go :
          (next : Next)
          → next_of o policy idempotent started n (o.time_of (o.send n w).1) (o.send n w).0 ≡ next
          → ((delay : ℕ)
              → 1 ≤ fuel
              → IsBounded policy started (suc n) (
                  attempts_from o policy idempotent started fuel
                    (suc n)
                    (o.sleep delay (o.send n w).1)))
          → IsBounded policy started n (elim next as (λ x. Run W) [
            | finish outcome ↦ record {
              outcome = outcome;
              attempts = n;
              sleeps = [];
              world = (o.send n w).1;
            }
            | sleep_for delay ↦
                slept
                  (now, delay)
                  (attempts_from o policy idempotent started fuel
                    (suc n)
                    (o.sleep delay (o.send n w).1))
          ])
      go (finish outcome) e more = record {
        ends = λ h. next_of-ends n now (o.send n w).0 (e ∙ ap finish h);
        allowed = omega arith;
        slept_between = omega arith;
        in_budget = tt;
      }
      go (sleep_for delay) e more =
          let again = next_of-TriesAgain n now delay (o.send n w).0 e in
          let ih = more delay (let few = again.is_allowed in omega arith) in
          record {
            ends = ih.ends;
            allowed = ih.allowed;
            slept_between = (let l = ih.slept_between in omega arith);
            in_budget = (again.fits, ih.in_budget);
          }

-- A request of the client ends: after at least one attempt, and at most as many as its policy allows;
-- between two attempts it sleeps once, never longer than the policy's longest delay, and never beyond
-- the time that the policy gives it from its start. Random delays lie within the bound they are drawn
-- from.
pub request-IsBounded :
    {W : Type 0} (o : Outside W) (max_attempts base_delay max_delay max_elapsed multiplier : ℕ)
    (jitter idempotent : Bool) (w : W)
    → ((n b : ℕ) → o.uniform n b ≤ b)
    → IsBounded
        (retry_policy max_attempts base_delay max_delay max_elapsed multiplier jitter)
        (o.time_of w)
        1
        (request o
          (retry_policy max_attempts base_delay max_delay max_elapsed multiplier jitter)
          idempotent
          w)
unfolding request retry_policy
request-IsBounded o max_attempts base_delay max_delay max_elapsed multiplier jitter idempotent w
      within =
    attempts_from-IsBounded o
      (retry_policy max_attempts base_delay max_delay max_elapsed multiplier jitter) idempotent
      (o.time_of w) within (max 1 max_attempts) 1 w (omega arith) (omega arith)

module _ {W : Type 0} (o : Outside W) (policy : RetryPolicy) (started : ℕ) where
  -- Sent once, with the world as that left it.
  abbrev IsSentOnce : W → Run W → Type 0
  IsSentOnce w run = (run.attempts ≡ 1) × (run.world ≡ (o.send 1 w).1)

  attempts_from-IsSentOnce :
      (fuel : ℕ) (w : W)
      → 1 ≤ fuel
      → ((n b : ℕ) → o.uniform n b ≤ b)
      → IsSentOnce w (attempts_from o policy false started fuel 1 w)
  unfolding attempts_from
  attempts_from-IsSentOnce zero w some_left within = absurd (omega arith)
  attempts_from-IsSentOnce (suc fuel) w some_left within =
      go (next_of o policy false started 1 (o.time_of (o.send 1 w).1) (o.send 1 w).0) refl
    where
      go :
          (next : Next)
          → next_of o policy false started 1 (o.time_of (o.send 1 w).1) (o.send 1 w).0 ≡ next
          → IsSentOnce w (elim next as (λ x. Run W) [
            | finish outcome ↦ record {
              outcome = outcome;
              attempts = 1;
              sleeps = [];
              world = (o.send 1 w).1;
            }
            | sleep_for delay ↦
                slept
                  (o.time_of (o.send 1 w).1, delay)
                  (attempts_from o policy false started fuel 2 (o.sleep delay (o.send 1 w).1))
          ])
      go (finish outcome) e = (refl, refl)
      go (sleep_for delay) e =
          let again =
            next_of-TriesAgain o policy false started within 1 (o.time_of (o.send 1 w).1) delay
              (o.send 1 w).0 e in
          let safe = again.may_repeat in absurd (cc)

-- A request that is not idempotent is sent once, whatever it brings: the world is as that one attempt
-- left it.
pub request-once :
    {W : Type 0} (o : Outside W) (policy : RetryPolicy) (w : W)
    → 1 ≤ policy.max_attempts
    → ((n b : ℕ) → o.uniform n b ≤ b)
    → ((request o policy false w).attempts ≡ 1)
      × ((request o policy false w).world ≡ (o.send 1 w).1)
unfolding request
request-once o policy w some_left within =
    attempts_from-IsSentOnce o policy (o.time_of w) policy.max_attempts w some_left within
