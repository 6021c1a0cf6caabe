-- ===== src/RateLimit/Tests.antt =====
-- A limiter of one event to the second and a burst of two, on a clock of thousandths of a minute.
use beacn.Base.{◌+◌, ◌*◌, ◌-◌, ◌≤◌, ◌≡◌, refl, List, [], ◌∷◌, none, some, arith}
use beacn.Base.Int.{pos, ◌+ℤ◌, ◌-ℤ◌}
use beacn.Base.Dict.{lookup, insert}
use beacn.RateLimit.{
  Limiter, admitted, limited, limiter, refill, retry_after, settle, check, Request, spent,
}
use beacn.RateLimit.Bounds.{IsReady, credit, last_time, spent-le-credit}
use beacn.RateLimit.Waiting.{run, retry_after_suffices}

abbrev small : Limiter
small = record { rate = 60; burst = 2; buckets = [] }

abbrev used : Limiter
used = record {
  rate = 60;
  burst = 2;
  buckets = ("k", record { tokens = pos 0; updated = 100 }) ∷ [];
}

small-IsReady : IsReady 1000 small 0
unfolding lookup
small-IsReady = record { at_key = λ key b known. absurd (cc) }

used-IsReady : IsReady 1000 used 100
unfolding lookup
used-IsReady = record { at_key = λ key b known. ground arith }

abbrev requests : List Request
requests =
    record { key = "k"; cost = 2; now = 0 }
    ∷ record { key = "k"; cost = 1; now = 10 }
    ∷ record { key = "j"; cost = 2; now = 10 }
    ∷ record { key = "k"; cost = 1; now = 17 }
    ∷ []

spent_run : spent 1000 small requests "k" ≡ 3
unfolding spent check settle refill retry_after lookup insert ◌+ℤ◌ ◌-ℤ◌
spent_run = refl

refusal : (check 1000 used "k" 1 100).1 ≡ limited 100
unfolding check settle refill retry_after lookup ◌+ℤ◌ ◌-ℤ◌
refusal = refl

defaults : limiter 6000 600 none (some 0) ≡ record { rate = 6000; burst = 600; buckets = [] }
unfolding limiter
defaults = refl

spent-le-credit_example :
    spent 1000 small requests "k" * 1000
    ≤ credit 1000 small "k" 0 + (last_time 0 requests * 60 - 0 * 60)
spent-le-credit_example = spent-le-credit 1000 0 small requests "k" small-IsReady (omega arith)

abbrev between : List Request
between = record { key = "j"; cost = 2; now = 105 } ∷ record { key = "m"; cost = 1; now = 110 } ∷ []

retry_after_suffices_example :
    (check 1000 (run 1000 (check 1000 used "k" 1 100).0 between) "k" 1 (100 + 17)).1 ≡ admitted
retry_after_suffices_example =
    retry_after_suffices 1000 used "k" 1 100 17 100 between used-IsReady (omega arith) (omega arith)
      refusal (omega arith) (refl, (refl, tt))
