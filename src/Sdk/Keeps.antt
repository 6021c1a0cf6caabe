-- ===== src/Sdk/Keeps.antt =====
-- Invariants of the world across the attempts of a request.
use beacn.Base.{
  ℕ, zero, suc, ◌≡◌, ◌≢◌, refl, ap, ◌∙◌, Bool, true, false, [], Option, none, some, arith,
  if◌then◌else◌,
}
use beacn.Base.Json.{Json}
use beacn.Sdk.{
  RetryPolicy, delay_for, should_retry, should_retry_failure, Reply, success, http_error,
  connection_error, returned, raised, Next, finish, sleep_for, Outside, Run, slept, sleep_or_raise,
  next_of, attempts_from, request,
}
use beacn.Sdk.Errors.{ApiError}

module _ {W : Type 0} (o : Outside W) (policy : RetryPolicy) (idempotent : Bool) (started : ℕ) where
  retried-not_returned :
      (test : Bool) (now : ℕ) (e : ApiError) (drawn : Option ℕ) (v : Json)
      → (if test then sleep_or_raise o policy idempotent started now e drawn else finish (raised e))
        ≢ finish (returned v)
  retried-not_returned false now e drawn v h = absurd (cc)
  retried-not_returned true now e none v h = absurd (cc)
  retried-not_returned true now e (some d) v h = ground arith

  next_of-returned :
      (n now : ℕ) (reply : Reply) (v : Json)
      → next_of o policy idempotent started n now reply ≡ finish (returned v)
      → reply ≡ success v
  unfolding next_of
  next_of-returned n now (success u) v h = ground arith
  next_of-returned n now (http_error status body request_id) v h = absurd (
      retried-not_returned (should_retry policy n status idempotent) now _
        (delay_for o.uniform o.float_limit policy n _) v h)
  next_of-returned n now (connection_error message) v h = absurd (
      retried-not_returned (should_retry_failure policy n idempotent) now _
        (delay_for o.uniform o.float_limit policy n none) v h)

-- `P` holds in the world that a run leaves, and `Q` too if it returned.
abbrev pub Leaves : {W : Type 0} → (W → Type 0) → (W → Json → Type 0) → Run W → Type 0
Leaves P Q run = P run.world × ((v : Json) → run.outcome ≡ returned v → Q run.world v)

-- What holds of the world before a request holds after it, if each attempt and each sleep keeps it; and
-- what each success makes true is true when the request returns.
module _ {W : Type 0} (o : Outside W) (policy : RetryPolicy) (idempotent : Bool) (P : W → Type 0)
    (Q : W → Json → Type 0) (sends : (n : ℕ) (w : W) → P w → P (o.send n w).1)
    (sleeps : (d : ℕ) (w : W) → P w → P (o.sleep d w))
    (succeeds : (n : ℕ) (w : W) (v : Json)
      → P w
      → (o.send n w).0 ≡ success v
      → Q (o.send n w).1 v) where
  attempts_from-Leaves :
      (started fuel n : ℕ) (w : W)
      → P w
      → Leaves P Q (attempts_from o policy idempotent started fuel n w)
  unfolding attempts_from
  attempts_from-Leaves started zero n w p = (p, λ v h. absurd (cc))
  attempts_from-Leaves started (suc fuel) n w p =
      go (next_of o policy idempotent started n (o.time_of (o.send n w).1) (o.send n w).0) refl
        (λ delay. attempts_from-Leaves started fuel (suc n) (o.sleep delay (o.send n w).1))
    where
      now : ℕ
      now = o.time_of (o.send n w).1

      go :
          (next : Next)
          → next_of o policy idempotent started n (o.time_of (o.send n w).1) (o.send n w).0 ≡ next
          → ((delay : ℕ)
              → P (o.sleep delay (o.send n w).1)
              → Leaves P Q (
                  attempts_from o policy idempotent started fuel
                    (suc n)
                    (o.sleep delay (o.send n w).1)))
          → Leaves P Q (elim next as (λ x. Run W) [
            | finish outcome ↦ record {
              outcome = outcome;
              attempts = n;
              sleeps = [];
              world = (o.send n w).1;
            }
            | sleep_for delay ↦
                slept
                  (now, delay)
                  (attempts_from o policy idempotent started fuel
                    (suc n)
                    (o.sleep delay (o.send n w).1))
          ])
      go (finish outcome) e more = (
        sends n w p,
        λ v h.
            succeeds n w v p (
              next_of-returned o policy idempotent started n now (o.send n w).0 v
                (e ∙ ap finish h)),
      )
      go (sleep_for delay) e more = more delay (sleeps delay (o.send n w).1 (sends n w p))

  pub request-Leaves : (w : W) → P w → Leaves P Q (request o policy idempotent w)
  unfolding request
  request-Leaves w p = attempts_from-Leaves (o.time_of w) policy.max_attempts 1 w p
