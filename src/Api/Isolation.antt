-- ===== src/Api/Isolation.antt =====
-- What a producer may read: nothing of another environment.
use beacn.Base.{
  ℕ, ◌+◌, ◌≡◌, refl, ap, sym, ◌∙◌, Bool, true, ◌&&◌, String, List, [], ◌∷◌, map, Option, some,
  or_default, arith, is_empty, str_ltb, find, keep, All, All-imp, All-keep, All-take, and-eq-true,
  Bool-cases, Option-cases, inl, inr, ◌==◌, eq_iff,
}
use beacn.Base.Int.{ℤ}
use beacn.Errors.{Result, ok, err, ◌>>=◌}
use beacn.Events.Model.{Time}
use beacn.Events.Wire.{EventRow, Wire, stored_wire}
use beacn.Store.{Table}
use beacn.Store.Order.{str_gtb, ascending, descending}
use beacn.Paging.{Page, page_of, behind}
use beacn.Paging.Complete.{All-keep_of}
use beacn.History.{EventPage, query, get_one}
use beacn.History.Complete.{query_rows_isolated}
use beacn.Replay.{ReplayResult, replay, replay_limit, of_topic, row_id}
use beacn.Tasks.{Task}
use beacn.Auth.{Producer}
use beacn.Notifications.{list_limit, limit_of}
use beacn.Api.Lists.{
  Parameters, ReplayBody, parse_query_time, history_query, list_events, get_event, replay_events,
  is_listed_task, id_of_task, list_tasks, get_task,
}

-- The environments of what an answer shows.
unfoldable pub shown : {A : Type 0} → (A → List String) → Result A → List String
shown f (ok a) = f a
shown f (err e) = []

abbrev pub of_wire : Wire → String
of_wire w = w.environment

abbrev pub of_task : Task → String
of_task t = t.environment

module _ (home : String) where
  abbrev pub AllHome : List String → Type 0
  AllHome = All (λ e. e ≡ home)

  shown-bind :
      {A B : Type 0} (f : B → List String) (m : Result A) (k : A → Result B)
      → ((a : A) → AllHome (shown f (k a)))
      → AllHome (shown f (m >>= k))
  unfolding shown
  shown-bind f (ok a) k h = h a
  shown-bind f (err e) k h = tt

  All-wires :
      (include_meta : Bool) (rows : List EventRow)
      → All (λ r. r.environment ≡ home) rows
      → AllHome (map of_wire (map (stored_wire include_meta) rows))
  unfolding stored_wire
  All-wires include_meta [] h = tt
  All-wires include_meta (r ∷ rows) h = (h.0, All-wires include_meta rows h.1)

  All-tasks :
      (tasks : List Task) → All (λ t. t.environment ≡ home) tasks → AllHome (map of_task tasks)
  All-tasks [] h = tt
  All-tasks (t ∷ tasks) h = (h.0, All-tasks tasks h.1)

  page_of-All :
      {A : Type 0} (P : A → Type 0) (key : A → String) (limit : ℕ) (rows : List A)
      → All P rows
      → All P (page_of key limit rows).items
  unfolding page_of
  page_of-All P key limit rows h = All-take P limit _ (All-take P (limit + 1) rows h)

  found-home :
      {A : Type 0} (env : A → String) (p q : A → Bool) (rows : List A) (row : A)
      → ((a : A) → p a ≡ (env a == home && q a))
      → find p rows ≡ some row
      → env row ≡ home
  found-home env p q [] row same h = absurd (cc)
  found-home env p q (r ∷ rows) row same h = elim (Bool-cases (p r)) [
    | inl own ↦
        let here : some r ≡ some row = rw own at h in
        let is_row : r ≡ row = cc in
        ap env (sym is_row)
        ∙ (eq_iff (env r) home).0 (and-eq-true (env r == home) (q r) (sym (same r) ∙ own)).0
    | inr other ↦ found-home env p q rows row same (rw other at h)
  ]

module _ (int_of : String → Option ℤ) (time_of : String → Option Time)
    (starts_with : String → String → Bool) where
  abbrev pub wires_of : EventPage starts_with → List String
  wires_of page = map of_wire page.events

  list_events-AllHome :
      (producer : Producer) (parameters : Parameters) (events : Table)
      → AllHome producer.environment
          (shown wires_of (list_events int_of time_of starts_with producer parameters events))
  unfolding list_events shown query
  list_events-AllHome producer parameters events =
      let home = producer.environment in
      shown-bind home wires_of (parse_query_time time_of (parameters "since")) _ (λ since.
        shown-bind home wires_of (parse_query_time time_of (parameters "until")) _ (λ until.
          shown-bind home wires_of (limit_of int_of (parameters "limit")) _ (λ limit.
            All-wires home (or_default (parameters "meta") "" == "1") _ (
              query_rows_isolated starts_with (history_query producer parameters since until limit)
                events))))

  get_event-AllHome :
      (producer : Producer) (event_id : String) (events : Table)
      → AllHome producer.environment
          (shown (λ w. of_wire w ∷ []) (get_event producer event_id events))
  unfolding get_event get_one shown stored_wire
  get_event-AllHome producer event_id events =
      elim (Option-cases (get_one producer.environment event_id events)) [
        | inl missing ↦ rw (missing, get_event) tt
        | inr (row, found) ↦
            rw (found, get_event)
              (
                found-home producer.environment (λ r. r.environment)
                    (λ row. row.environment == producer.environment && row.id == event_id)
                    (λ r. r.id == event_id) events row (λ r. refl) found,
                tt,
              )
      ]

  replay_events-AllHome :
      (max_events : ℕ) (producer : Producer) (body : ReplayBody) (events : Table)
      → AllHome producer.environment (
          shown
            (λ (r : ReplayResult). map of_wire r.events)
            (replay_events max_events producer body events))
  unfolding replay_events replay shown
  replay_events-AllHome max_events producer body events =
      let home = producer.environment in
      let topic = or_default body.topic "" in
      elim (Bool-cases (is_empty topic)) [
        | inl missing ↦ rw missing tt
        | inr named ↦ rw named (
            All-wires home body.meta _ (
              page_of-All home (λ r. r.environment ≡ home) row_id
                (replay_limit max_events body.limit) _
                (All-keep_of row_id str_ltb ascending (λ r. r.environment ≡ home)
                  (behind row_id str_ltb body.since) (keep (of_topic home topic) events)
                  (All-imp (λ r. of_topic home topic r ≡ true) (λ r. r.environment ≡ home) _
                    (λ r own.
                      (eq_iff r.environment home).0
                        (and-eq-true (r.environment == home) (r.topic == topic) own).0)
                    (All-keep (of_topic home topic) events)))))
      ]

  abbrev pub tasks_of : Page Task → List String
  tasks_of page = map of_task page.items

  list_tasks-AllHome :
      (producer : Producer) (parameters : Parameters) (tasks : List Task)
      → AllHome producer.environment (shown tasks_of (list_tasks int_of producer parameters tasks))
  unfolding list_tasks shown
  list_tasks-AllHome producer parameters tasks =
      let home = producer.environment in
      let listed = is_listed_task home parameters in
      shown-bind home tasks_of (limit_of int_of (parameters "limit")) _ (λ limit. All-tasks home _ (
        page_of-All home (λ t. t.environment ≡ home) id_of_task (list_limit limit) _
          (All-keep_of id_of_task str_gtb descending (λ t. t.environment ≡ home)
            (behind id_of_task str_gtb (parameters "cursor")) (keep listed tasks)
            (All-imp (λ t. listed t ≡ true) (λ t. t.environment ≡ home) _
              (λ t own. ground (arith, own, eq_iff t.environment home)) (All-keep listed tasks)))))

  get_task-AllHome :
      (producer : Producer) (task_id : String) (tasks : List Task)
      → AllHome producer.environment (shown (λ t. of_task t ∷ []) (get_task producer task_id tasks))
  unfolding get_task shown
  get_task-AllHome producer task_id tasks =
      let home = producer.environment in
      elim (Option-cases (find (λ t. t.environment == home && t.task_id == task_id) tasks)) [
        | inr (task, found) ↦
            rw (found, get_task)
              (
                found-home home of_task (λ t. t.environment == home && t.task_id == task_id)
                    (λ t. t.task_id == task_id) tasks task (λ t. refl) found,
                tt,
              )
        | inl none_such ↦
            elim (Option-cases (find (λ t. t.environment == home && t.id == task_id) tasks)) [
              | inr (task, found) ↦
                  rw (none_such, found, get_task)
                    (
                      found-home home of_task (λ t. t.environment == home && t.id == task_id)
                          (λ t. t.id == task_id) tasks task (λ t. refl) found,
                      tt,
                    )
              | inl missing ↦ rw (none_such, missing, get_task) tt
            ]
      ]

  -- Whatever a producer asks for, by any parameters, id or body, the events and tasks that it is shown
  -- belong to the environment of its key: the lists of events and of tasks, one event and one task by its
  -- id, and a replay.
  pub reads-AllHome :
      (producer : Producer) (parameters : Parameters) (id : String) (max_events : ℕ)
      (body : ReplayBody) (events : Table) (tasks : List Task)
      → AllHome producer.environment
          (shown wires_of (list_events int_of time_of starts_with producer parameters events))
        × AllHome producer.environment (shown (λ w. of_wire w ∷ []) (get_event producer id events))
        × AllHome producer.environment (
            shown
              (λ (r : ReplayResult). map of_wire r.events)
              (replay_events max_events producer body events))
        × AllHome producer.environment
            (shown tasks_of (list_tasks int_of producer parameters tasks))
        × AllHome producer.environment (shown (λ t. of_task t ∷ []) (get_task producer id tasks))
  reads-AllHome producer parameters id max_events body events tasks = (
    list_events-AllHome producer parameters events,
    get_event-AllHome producer id events,
    replay_events-AllHome max_events producer body events,
    list_tasks-AllHome producer parameters tasks,
    get_task-AllHome producer id tasks,
  )
