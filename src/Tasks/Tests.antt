-- ===== src/Tasks/Tests.antt =====
-- A task that fails, and events that come too late.
use beacn.Base.{◌≡◌, String, refl, true, none, some}
use beacn.Base.Int.{ℤ, pos}
use beacn.Base.Json.{Json, num, str, end, field, Fields}
use beacn.Errors.{ok}
use beacn.Events.Model.{EventKind, Envelope}
use beacn.Tasks.{
  Float, finite, Outcome, value, value_error, type_error, Library, Task, is_terminal, with_name,
  with_status, clamp, with_progress, with_attempts, with_outcome, with_started, with_finished,
  observe, apply_event, new_task, data_dt,
}
use beacn.Tasks.Lifecycle.{is_closed, observe-terminal}

-- A stand-in for the standard library: only numbers are numbers, and no text is a time.
abbrev to_float : Json → Outcome Float
to_float (num n d) = value (finite n d)
to_float v = type_error

abbrev to_int : Json → Outcome ℤ
to_int (num n d) = value n
to_int v = type_error

abbrev library : Library
library = record {
  float_of = to_float;
  int_of = to_int;
  error_text = λ v. "?";
  from_timestamp = λ n d. value n;
  from_iso_format = λ v. value_error;
}

abbrev event_of : String → String → Fields → Envelope
event_of event status payload = record {
  id = "evt_1";
  event = event;
  topic = "tasks";
  producer = "worker";
  environment = "production";
  timestamp = pos 9;
  kind = EventKind.task;
  source = none;
  occurred_at = none;
  correlation_id = none;
  request_id = none;
  user_id = none;
  organization_id = none;
  project_id = none;
  schema_version = "1";
  severity = "info";
  idempotency_key = none;
  payload = payload;
  task_id = some "t-7";
  task_name = some (str "resize");
  task_status = some (str status);
  producer_id = some "prd_1";
  api_key_id = none;
}

abbrev failure : Envelope
failure = event_of "task.failed" "failed" (field "error" (str "no disk") end)

abbrev late_start : Envelope
late_start = event_of "task.progress" "started" (field "progress" (num (pos 5) 1) end)

abbrev pub fresh : Task
fresh = record {
  id = "01";
  environment = "production";
  task_id = "t-7";
  name = some (str "resize");
  topic = "tasks";
  producer_id = some "prd_1";
  producer_name = some "worker";
  status = str "created";
  progress = none;
  attempts = pos 0;
  error = none;
  result = none;
  correlation_id = none;
  started_at = none;
  finished_at = none;
  last_event_id = none;
}

abbrev failed : Task
failed = record fresh {
  status = str "failed";
  error = some "?";
  started_at = some (pos 9);
  finished_at = some (pos 9);
  last_event_id = some "evt_1";
}

abbrev failed_late : Task
failed_late = record failed { progress = some (finite (pos 1) 0) }

run : Unit {0}
unfolding apply_event observe with_name with_status with_progress with_attempts with_outcome
    with_started with_finished clamp data_dt new_task is_terminal
run = tt

failure_run : apply_event library "01" failure none ≡ ok (some failed)
unfolding run
failure_run = refl

failed_run : observe library failure fresh ≡ ok failed
unfolding run
failed_run = refl

late_run : observe library late_start failed ≡ ok failed_late
unfolding run
late_run = refl

is_failed : is_terminal (str "failed") ≡ true
unfolding is_terminal
is_failed = refl

observe-terminal_example : is_terminal (str "failed") ≡ true
observe-terminal_example = observe-terminal library late_start failed failed_late late_run is_failed

fresh_closed : is_closed fresh.status fresh.started_at fresh.finished_at ≡ true
unfolding is_terminal
fresh_closed = refl

progress_run : with_progress library late_start.payload failed ≡ ok failed_late
unfolding run
progress_run = refl
