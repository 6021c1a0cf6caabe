-- ===== src/Api/Tests.antt =====
-- A batch with a good and a bad event, a route that is closed and opened, and a far-reaching token.
use beacn.Base.{
  ◌⊎◌, ◌↔◌, ◌≢◌, Bool, map, ℕ, ◌+◌, ◌<◌, ◌≡◌, refl, arith, true, false, String, [], ◌∷◌, Option,
  none, some,
}
use beacn.Base.Int.{ℤ, pos}
use beacn.Base.Json.{Fields, nil, cons, obj, arr, end}
use beacn.Base.Strip.{strip}
use beacn.Base.Dict.{lookup, insert}
use beacn.Base.Int.{◌+ℤ◌, ◌-ℤ◌}
use beacn.Errors.{validation, raise_as, Result, ok}
use beacn.Events.{
  is_valid_topic_name, first_segment, kind_for, clean_str, parse_dt, event_name, topic_name,
  severity_of, payload_of, schema_version_of, core_of, text_at, optional_of, build,
  with_task_fields, ingest_object, ingest, parse_batch,
}
use beacn.Events.Names.{matches_event, matches_topic}
use beacn.Ingest as Ingest
use beacn.Ingest.{IngestResult}
use beacn.Events.Tests.{python, spoofed}
use beacn.Topics.{allowed, authorize_subscription, is_foreign, spec_or_default}
use beacn.RateLimit.{refill, retry_after, settle, check}
use beacn.Auth.{
  ApiKey, Producer, key_has_scope, resolve_api_key, bearer, key_prefix, is_live, words,
  require_scope,
}
use beacn.Auth.Tokens.{mint_realtime_token}
use beacn.Auth.Tests.{hash, orders_api, orders_key, used, plain, plain-Decodes}
use beacn.Ingest.Tests.{started, drawn}
use beacn.Api.{
  HttpRequest, Response, answered, reply, enforce_size, read_json, require_scopes,
  producer_endpoint,
}
use beacn.Api.Publish.{
  State, Rejected, Published, published, collect, publish_events, producer_context, batch_of,
  limited_batch, admitted_batch, answer_batch, store_batch, all_deduplicated, touch_producer_stats,
}
use beacn.Tasks.Tests as TaskTests
use beacn.Api.Lists.{
  Parameters, ReplayBody, list_events, get_event, replay_events, list_tasks, get_task,
}
use beacn.Api.Isolation.{AllHome, shown, of_wire, of_task, wires_of, tasks_of, reads-AllHome}
use beacn.Store.{backwards}
use beacn.Store.Tests.{four_rows}
use beacn.Paging.{page_of}
use beacn.Events.Wire.{stored_wire}
use beacn.History.{query, query_rows, matches_query, clamped_limit}
use beacn.Replay.{ReplayResult}
use beacn.Api.Endpoint.{Ends, producer_endpoint-Ends}
use beacn.Topics.Claims.{owned_topic}
use beacn.Api.Tokens.Users.{issue_realtime_token-user}
use beacn.Api.Tokens.{Issued, TokenBody, token_request, issue_for, issue_realtime_token, Stands}

abbrev two_events : HttpRequest
two_events = record {
  authorization = some "bEARER  bk_ab12_s3cret ";
  content_length = some "512";
  ip = none;
  body = some (arr (cons (obj spoofed) (cons (obj end) nil)));
}

abbrev pub service : State
service = record {
  limiter = record { rate = 60; burst = 2; buckets = [] };
  store = started;
  stats = [];
}

run : Unit {0}
unfolding publish_events limited_batch admitted_batch answer_batch store_batch all_deduplicated
    collect enforce_size read_json parse_batch check settle refill retry_after lookup insert ◌+ℤ◌
    ◌-ℤ◌ ingest ingest_object core_of event_name clean_str strip topic_name severity_of payload_of
    schema_version_of optional_of build with_task_fields text_at parse_dt kind_for first_segment
    matches_event matches_topic is_valid_topic_name Ingest.ingest Ingest.ingest_with Ingest.dedupe
    Ingest.propagate_from Ingest.topic_settings Ingest.settings_of Ingest.store Ingest.deliver
    Ingest.observe Ingest.fan_out_to producer_context touch_producer_stats
run = tt

abbrev missing : ℕ → Rejected
missing i = record { index = i; error = raise_as validation "event is required" }

abbrev stored : IngestResult
stored = record {
  accepted =
      record { id = "evt_7"; event = "task.started"; topic = "task"; deduplicated = false } ∷ [];
  deduplicated = 0;
}

abbrev partly : Response Published
partly = reply 201 (published stored (missing 1 ∷ []))

read_run : batch_of python drawn 1000 1000000 two_events ≡ ok (obj spoofed ∷ obj end ∷ [])
unfolding run
read_run = refl

partly_run :
    (publish_events python drawn 1000 1000000 two_events (pos 9) 0 used orders_api service).0
    ≡ ok partly
unfolding run
partly_run = refl

abbrev count : ApiKey → Producer → ℕ → Result (Response ℕ) × ℕ
count key producer n = (ok (reply 200 n), n + 1)

producer_endpoint-Ends_example :
    Ends hash ("events:read" ∷ []) count two_events true (orders_key ∷ []) (pos 9) 3 (
      producer_endpoint hash ("events:read" ∷ []) count two_events true (orders_key ∷ []) (pos 9) 3)
producer_endpoint-Ends_example =
    producer_endpoint-Ends hash ("events:read" ∷ []) count two_events true (orders_key ∷ []) (pos 9)
      3

abbrev everything : TokenBody
everything = record {
  user_id = none;
  organization_id = none;
  project_ids = [];
  topic_patterns = "*" ∷ [];
  ttl_seconds = none;
}

-- A key that may only read, and a token for the user u7.
abbrev reading_key : ApiKey
reading_key = record orders_key { scopes = "events:read" }

abbrev for_user : TokenBody
for_user = record everything { user_id = some "u7"; topic_patterns = [] }

abbrev for_user_issued : Issued (Fields × String)
for_user_issued =
    issue_for plain 900 "key"
      (record reading_key { request_count = 5; last_used_at = some (pos 9) }) orders_api for_user
      1000

for_user_run :
    (issue_realtime_token plain 900 "key" hash two_events true
      (reading_key ∷ [])
      for_user
      (pos 9)
      1000).0.0
    ≡ answered (reply 201 for_user_issued)
unfolding issue_realtime_token producer_endpoint resolve_api_key bearer key_prefix is_live strip
    words require_scopes require_scope
for_user_run = refl

user_still_valid : 1500 < 1000 + for_user_issued.expires_in
unfolding issue_for mint_realtime_token token_request
user_still_valid = omega arith

issue_realtime_token-user_example :
    (t : Stands plain 900 "key" hash two_events
      (reading_key ∷ [])
      (pos 9)
      1500
      for_user
      for_user_issued)
    × ((key_has_scope t.admitted.row "system:read" ≡ true)
        ⊎ ((allowed (authorize_subscription (owned_topic "user" "u7") t.grant none) ≡ true) ↔ (
            (is_foreign
                (spec_or_default (owned_topic "user" "u7") t.grant none).environment
                t.producer.environment
              ≡ false)
            × (◌≡◌ {A = String} "u7" "u7")
            × ((spec_or_default (owned_topic "user" "u7") t.grant none).visibility ≢ "internal"))))
issue_realtime_token-user_example =
    issue_realtime_token-user plain 900 "key" hash two_events true (reading_key ∷ []) for_user
      (pos 9) 1000 1500 for_user_issued "u7" "u7" none plain-Decodes for_user_run user_still_valid
      refl refl refl refl

-- No parameter is given; no text is a number or a time, and none begins with another.
abbrev bare : Parameters
bare name = none

abbrev no_number : String → Option ℤ
no_number s = none

abbrev no_time : String → Option ℤ
no_time s = none

abbrev never : String → String → Bool
never prefix s = false

abbrev all_orders : ReplayBody
all_orders = record { topic = some "orders"; since = none; limit = none; meta = false }

reads-AllHome_example :
    AllHome "production" (
      shown
        (wires_of no_number no_time never)
        (list_events no_number no_time never orders_api bare four_rows))
    × AllHome "production" (shown (λ w. of_wire w ∷ []) (get_event orders_api "evt_3" four_rows))
    × AllHome "production" (
        shown
          (λ (r : ReplayResult). map of_wire r.events)
          (replay_events 500 orders_api all_orders four_rows))
    × AllHome "production" (
        shown
          (tasks_of no_number no_time never)
          (list_tasks no_number orders_api bare (TaskTests.fresh ∷ [])))
    × AllHome "production"
        (shown (λ t. of_task t ∷ []) (get_task orders_api "evt_3" (TaskTests.fresh ∷ [])))
reads-AllHome_example =
    reads-AllHome no_number no_time never orders_api bare "evt_3" 500 all_orders four_rows
      (TaskTests.fresh ∷ [])

two_read :
    shown
      (wires_of no_number no_time never)
      (list_events no_number no_time never orders_api bare four_rows)
    ≡ "production" ∷ "production" ∷ "production" ∷ "production" ∷ []
unfolding list_events query query_rows matches_query backwards shown stored_wire page_of
    clamped_limit
two_read = refl
