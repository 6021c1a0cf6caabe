-- ===== src/Sdk/Outage.antt =====
-- A consumer that reconnects gives up after a long outage.
use beacn.Base.{
  ℕ, suc, ◌+◌, ◌-◌, ◌^◌, ◌≤◌, ◌≡◌, refl, ap, ◌∙◌, true, false, String, List, [], ◌∷◌, ◌++◌, Option,
  none, some, arith, length, All, leb, le→leb, if◌then◌else◌,
}
use beacn.Base.Json.{Json}
use beacn.Sdk.{RetryPolicy, retry_policy, delay_for}
use beacn.Sdk.Sse.{iter_sse}
use beacn.Sdk.Subscribe.{
  Connection, returned, overflow_error, Consumed, events_of, stops, subscribe, reconnect_policy,
  with_events, last_id_of, attempts_after,
}

delay_for-overflow :
    (uniform : ℕ → ℕ → ℕ) (float_limit : ℕ) (policy : RetryPolicy) (attempt : ℕ)
    → leb float_limit (policy.multiplier ^ (attempt - 1)) ≡ true
    → delay_for uniform float_limit policy attempt none ≡ none
unfolding delay_for
delay_for-overflow uniform float_limit policy attempt h = rw h refl

reconnect-overflow :
    (float_limit half n attempt : ℕ)
    → attempt ≡ n
    → float_limit ≤ 2 ^ n
    → leb float_limit ((reconnect_policy half).multiplier ^ (suc attempt - 1)) ≡ true
unfolding retry_policy
reconnect-overflow float_limit half n attempt same long =
    let last : suc attempt - 1 ≡ n = omega arith in
    ap (λ k. leb float_limit (2 ^ k)) last ∙ le→leb float_limit (2 ^ n) long

-- A connection that breaks and brings no event.
pub record IsSilent (loads : String → Option Json) (c : Connection) : Type 0 where
  pub no_events : events_of (iter_sse loads [] c.lines) ≡ []
  pub breaks : c.is_closed ≡ false

module _ (loads : String → Option Json) (uniform : ℕ → ℕ → ℕ) (float_limit half : ℕ) where
  subscribe-silent :
      (attempt : ℕ) (last_id : Json) (c : Connection) (cs : List Connection)
      → IsSilent loads c
      → subscribe loads uniform float_limit half true attempt last_id (c ∷ cs)
        ≡ (elim (delay_for uniform float_limit (reconnect_policy half) (suc attempt) none)
            as (λ x. Consumed) [
              | none ↦ stops loads uniform float_limit half true last_id overflow_error
              | some delay ↦ subscribe loads uniform float_limit half true (suc attempt) last_id cs
            ])
  unfolding subscribe last_id_of
  subscribe-silent attempt last_id c cs h =
      ap
        (λ es. with_events es (
          if c.is_closed
          then stops loads uniform float_limit half true (last_id_of es last_id) returned
          else (elim (delay_for uniform float_limit (reconnect_policy half)
                (suc (attempts_after es attempt)) none)
              as (λ x. Consumed) [
                | none ↦
                    stops loads uniform float_limit half true (last_id_of es last_id) overflow_error
                | some delay ↦
                    subscribe loads uniform float_limit half true (suc (attempts_after es attempt))
                      (last_id_of es last_id) cs
              ])))
        h.no_events
      ∙ ap
          (λ b.
            if b
            then stops loads uniform float_limit half true last_id returned
            else (elim (delay_for uniform float_limit (reconnect_policy half) (suc attempt) none)
                as (λ x. Consumed) [
                  | none ↦ stops loads uniform float_limit half true last_id overflow_error
                  | some delay ↦
                      subscribe loads uniform float_limit half true (suc attempt) last_id cs
                ]))
          h.breaks

  -- A consumer that reconnects does not survive a long outage: after `n + 1` connections in a row that
  -- break without an event, where 2 to the power of `n` is too large for a float, it ends with
  -- OverflowError, whatever the connections behind them would bring.
  pub subscribe-overflow :
      (n attempt : ℕ) (last_id : Json) (outage rest : List Connection)
      → All (IsSilent loads) outage
      → attempt + length outage ≡ suc n
      → 1 ≤ length outage
      → float_limit ≤ 2 ^ n
      → subscribe loads uniform float_limit half true attempt last_id (outage ++ rest)
        ≡ stops loads uniform float_limit half true last_id overflow_error
  subscribe-overflow n attempt last_id [] rest silent total some_left long = absurd (omega arith)
  subscribe-overflow n attempt last_id (c ∷ []) rest silent total some_left long =
      let over = reconnect-overflow float_limit half n attempt (omega arith) long in
      subscribe-silent attempt last_id c rest silent.0
      ∙ (rw (delay_for-overflow uniform float_limit (reconnect_policy half) (suc attempt) over)
          refl)
  subscribe-overflow n attempt last_id (c ∷ d ∷ cs) rest silent total some_left long =
      subscribe-silent attempt last_id c ((d ∷ cs) ++ rest) silent.0
      ∙ go (delay_for uniform float_limit (reconnect_policy half) (suc attempt) none) (
          subscribe-overflow n (suc attempt) last_id (d ∷ cs) rest silent.1 (omega arith)
            (omega arith) long)
    where
      go :
          (drawn : Option ℕ)
          → subscribe loads uniform float_limit half true (suc attempt) last_id ((d ∷ cs) ++ rest)
            ≡ stops loads uniform float_limit half true last_id overflow_error
          → (elim drawn as (λ x. Consumed) [
            | none ↦ stops loads uniform float_limit half true last_id overflow_error
            | some delay ↦
                subscribe loads uniform float_limit half true
                  (suc attempt)
                  last_id
                  ((d ∷ cs) ++ rest)
          ])
            ≡ stops loads uniform float_limit half true last_id overflow_error
      go none ih = refl
      go (some delay) ih = ih
