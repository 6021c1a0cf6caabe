-- ===== src/Tasks/Lifecycle.antt =====
-- What no event can undo in the row of a task.
use beacn.Base.{
  zero, suc, ◌+◌, ◌≤◌, ◌≡◌, refl, ap, subst, leb→le, ◌⊎◌, ◌∙◌, sym, arith, Bool, true, false, ◌&&◌,
  ◌||◌, not, String, Option, none, some, is_some, is_none, Bool-cases, inl, inr, if◌then◌else◌,
  ◌==◌, leb,
}
use beacn.Base.Int.{ℤ, pos, negsuc}
use beacn.Base.Json.{Json, Fields, get, get?, is_true}
use beacn.Errors.{ok, bind-eq-ok, ok-injective}
use beacn.Events.Model.{Time, Envelope}
use beacn.Tasks.{
  Float, finite, infinity, minus_infinity, not_a_number, Outcome, value, value_error, type_error,
  other_error, Library, Task, is_terminal, is_hashable, status_value, with_name, with_status, clamp,
  with_progress, with_attempts, with_outcome, with_started, with_finished, observe, started_or,
  given_or, is_started, data_dt, given_progress, set_progress, set_attempts, set_started,
  set_finished,
}

-- What the states of a task stand on: its status and its two times.
pub record Course : Type 0 where
  pub status : Json
  pub started_at : Option Time
  pub finished_at : Option Time

abbrev course : Task → Course
course row = record {
  status = row.status;
  started_at = row.started_at;
  finished_at = row.finished_at;
}

-- A task that has ended has both its times.
abbrev pub is_closed : Json → Option Time → Option Time → Bool
is_closed status started finished =
    not (is_terminal status) || (is_some started && is_some finished)

-- None, or a float from 0 to 1.
abbrev pub IsPart : Option Float → Type 0
IsPart none = Unit
IsPart (some (finite (pos n) d)) = n ≤ d + 1
IsPart (some x) = ⊥

set_progress-course :
    (row row' : Task) (x : Outcome Float) → set_progress row x ≡ ok row' → course row' ≡ course row
set_progress-course row row' (value x) h = ap course (sym (ok-injective h))
set_progress-course row row' value_error h = ap course (sym (ok-injective h))
set_progress-course row row' type_error h = ap course (sym (ok-injective h))
set_progress-course row row' other_error h = absurd (cc)

with_progress-course :
    (lib : Library) (payload : Fields) (row row' : Task)
    → with_progress lib payload row ≡ ok row'
    → course row' ≡ course row
unfolding with_progress
with_progress-course lib payload row row' h = go (get? payload "progress") h
  where
    go : (v : Option Json) → given_progress lib row v ≡ ok row' → course row' ≡ course row
    go none h = ap course (sym (ok-injective h))
    go (some v) h = set_progress-course row row' (lib.float_of v) h

set_attempts-course :
    (row row' : Task) (x : Outcome ℤ) → set_attempts row x ≡ ok row' → course row' ≡ course row
set_attempts-course row row' (value x) h = ap course (sym (ok-injective h))
set_attempts-course row row' value_error h = absurd (cc)
set_attempts-course row row' type_error h = absurd (cc)
set_attempts-course row row' other_error h = absurd (cc)

with_attempts-course :
    (lib : Library) (event : String) (payload : Fields) (row row' : Task)
    → with_attempts lib event payload row ≡ ok row'
    → course row' ≡ course row
unfolding with_attempts
with_attempts-course lib event payload row row' h = elim (Bool-cases (event == "task.retrying")) [
  | inl retrying ↦ elim (Bool-cases (is_true (get payload "attempt"))) [
    | inl given ↦
        set_attempts-course row row' (lib.int_of (get payload "attempt"))
          (rw (retrying, given) at h)
    | inr bare ↦ ap course (sym (ok-injective (rw (retrying, bare) at h)))
  ]
  | inr other ↦ ap course (sym (ok-injective (rw other at h)))
]

-- Beginning a task sets no status and no end, and forgets no time.
with_started-course :
    (lib : Library) (status : Json) (payload : Fields) (now : Time) (row row' : Task)
    → with_started lib status payload now row ≡ ok row'
    → (row'.status ≡ row.status)
      × ((row'.finished_at ≡ row.finished_at)
          × (is_some row.started_at ≡ true → is_some row'.started_at ≡ true))
unfolding with_started
with_started-course lib status payload now row row' h =
    elim (Bool-cases (is_started status && is_none row.started_at)) [
      | inl begins ↦
          let (given, read, made) =
            bind-eq-ok (data_dt lib (get payload "started_at")) (set_started now row)
              (rw begins at h) in
          let same = sym (ok-injective made) in
          (
            ap (λ r. r.status) same,
            (ap (λ r. r.finished_at) same, λ e. ap (λ r. is_some r.started_at) same),
          )
      | inr stays ↦
          let same = sym (ok-injective (rw stays at h)) in
          (
            ap (λ r. r.status) same,
            (ap (λ r. r.finished_at) same, λ e. ap (λ r. is_some r.started_at) same ∙ e),
          )
    ]

started_or-is_some : (given : Option Time) (t : Time) → is_some (started_or given t) ≡ true
started_or-is_some none t = refl
started_or-is_some (some s) t = refl

-- Ending a task sets no status; the task has both times if the event ends it, and else keeps them.
with_finished-course :
    (lib : Library) (status : Json) (payload : Fields) (now : Time) (row row' : Task)
    → with_finished lib status payload now row ≡ ok row'
    → (row'.status ≡ row.status)
      × (((is_terminal status ≡ true)
            × ((is_some row'.started_at && is_some row'.finished_at) ≡ true))
          ⊎ ((is_terminal status ≡ false) × (course row' ≡ course row)))
unfolding with_finished
with_finished-course lib status payload now row row' h = elim (Bool-cases (is_terminal status)) [
  | inl ends ↦
      let (given, read, made) =
        bind-eq-ok (data_dt lib (get payload "finished_at")) (set_finished now row)
          (rw ends at h) in
      let same = sym (ok-injective made) in
      let begun = started_or-is_some row.started_at (given_or given now) in
      (
        ap (λ r. r.status) same,
        inl (ends, ap (λ r. is_some r.started_at && is_some r.finished_at) same ∙ rw begun refl),
      )
  | inr goes_on ↦
      let same = sym (ok-injective (rw goes_on at h)) in
      (ap (λ r. r.status) same, inr (goes_on, ap course same))
]

-- What `with_status` makes of a status.
next_status : Json → Json → Json
next_status status old =
    if is_true status && not (is_terminal old && not (is_terminal status)) then status else old

course-with_status :
    (env : Envelope) (status : Json) (row : Task)
    → course (with_status status (with_name env row)) ≡ record {
      status = next_status status row.status;
      started_at = row.started_at;
      finished_at = row.finished_at;
    }
unfolding with_status with_name next_status
course-with_status env status row = ground arith

-- What an event makes of the status and of the times.
observe-status :
    (lib : Library) (env : Envelope) (row row' : Task)
    → observe lib env row ≡ ok row'
    → (row'.status ≡ next_status (status_value env.task_status) row.status)
      × (((is_terminal (status_value env.task_status) ≡ true)
            × ((is_some row'.started_at && is_some row'.finished_at) ≡ true))
          ⊎ ((is_terminal (status_value env.task_status) ≡ false)
              × ((row'.finished_at ≡ row.finished_at)
                  × (is_some row.started_at ≡ true → is_some row'.started_at ≡ true))))
unfolding observe with_outcome
observe-status lib env row row' h = elim (Bool-cases (is_hashable (status_value env.task_status))) [
  | inr no_hash ↦ let stop = rw no_hash at h in absurd (cc)
  | inl hash ↦
      let status = status_value env.task_status in
      let named = with_status status (with_name env row) in
      let (moved, e1, h1) = bind-eq-ok (with_progress lib env.payload named) _ (rw hash at h) in
      let (tried, e2, h2) = bind-eq-ok (with_attempts lib env.event env.payload moved) _ h1 in
      let (begun, e3, h3) =
        bind-eq-ok
          (with_started lib status env.payload env.timestamp (with_outcome lib env.payload tried)) _
          h2 in
      let (ended, e4, h4) =
        bind-eq-ok (with_finished lib status env.payload env.timestamp begun) _ h3 in
      let chain =
        with_attempts-course lib env.event env.payload moved tried e2
        ∙ with_progress-course lib env.payload named moved e1
        ∙ course-with_status env status row in
      let (s3, (f3, k3)) =
        with_started-course lib status env.payload env.timestamp
          (with_outcome lib env.payload tried) begun e3 in
      let (s4, times) = with_finished-course lib status env.payload env.timestamp begun ended e4 in
      let same : course row' ≡ course ended = ap course (sym (ok-injective h4)) in
      (
        ap (λ c. c.status) same ∙ s4 ∙ s3 ∙ ap (λ c. c.status) chain,
        elim times [
          | inl (ends, both) ↦
              inl (ends, ap (λ c. is_some c.started_at && is_some c.finished_at) same ∙ both)
          | inr (goes_on, kept) ↦ inr (
            goes_on,
            (
              ap (λ c. c.finished_at) (same ∙ kept) ∙ f3 ∙ ap (λ c. c.finished_at) chain,
              λ e.
                  ap (λ c. is_some c.started_at) (same ∙ kept)
                  ∙ k3 (ap (λ c. is_some c.started_at) chain ∙ e),
            ),
          )
        ],
      )
]

-- A task that has completed, failed or been revoked never leaves the terminal states, whatever
-- events are applied to it.
pub observe-terminal :
    (lib : Library) (env : Envelope) (row row' : Task)
    → observe lib env row ≡ ok row'
    → is_terminal row.status ≡ true
    → is_terminal row'.status ≡ true
unfolding next_status
observe-terminal lib env row row' h ended =
    let (status, times) = observe-status lib env row row' h in ground arith

-- If a task that has ended has both its times, then so it has after any event that is applied.
pub observe-is_closed :
    (lib : Library) (env : Envelope) (row row' : Task)
    → observe lib env row ≡ ok row'
    → is_closed row.status row.started_at row.finished_at ≡ true
    → is_closed row'.status row'.started_at row'.finished_at ≡ true
unfolding next_status
observe-is_closed lib env row row' h closed =
    let (moved, times) = observe-status lib env row row' h in
    let status = status_value env.task_status in
    elim times [
      | inl (ends, both) ↦ ground arith
      | inr (goes_on, (finish, start)) ↦ elim (Bool-cases (is_terminal row'.status)) [
        | inr runs ↦ ground arith
        | inl ended ↦ ground (arith, start, finish)
      ]
    ]

clamp-IsPart : (x : Float) → IsPart (some (clamp x))
unfolding clamp
clamp-IsPart (finite (negsuc n) d) = omega arith
clamp-IsPart (finite (pos zero) d) = omega arith
clamp-IsPart (finite (pos (suc n)) d) = elim (Bool-cases (leb (suc n) d)) [
  | inl below ↦ rw below (omega (arith, leb→le (suc n) d below))
  | inr above ↦ rw above (omega arith)
]
clamp-IsPart infinity = omega arith
clamp-IsPart minus_infinity = omega arith
clamp-IsPart not_a_number = omega arith

-- The progress of a task is none or a number from 0 to 1, whatever the payload of an event gives
-- for it, as long as it was so before.
pub with_progress-IsPart :
    (lib : Library) (payload : Fields) (row row' : Task)
    → with_progress lib payload row ≡ ok row'
    → IsPart row.progress
    → IsPart row'.progress
unfolding with_progress
with_progress-IsPart lib payload row row' h part = go (get? payload "progress") h
  where
    kept : ok row ≡ ok row' → IsPart row'.progress
    kept e = subst (λ r. IsPart r.progress) (ok-injective e) part

    set : (x : Outcome Float) → set_progress row x ≡ ok row' → IsPart row'.progress
    set (value x) e = subst (λ r. IsPart r.progress) (ok-injective e) (clamp-IsPart x)
    set value_error e = kept e
    set type_error e = kept e
    set other_error e = absurd (cc)

    go : (v : Option Json) → given_progress lib row v ≡ ok row' → IsPart row'.progress
    go none e = kept e
    go (some v) e = set (lib.float_of v) e
