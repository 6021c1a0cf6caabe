-- ===== src/Sdk/Tests.antt =====
-- A request that is refused twice, a batch under a key, a stream, an outage and the pages of a table.

use beacn.Base.{
  ℕ, zero, suc, ◌+◌, ◌≤◌, ◌<◌, ◌≡◌, refl, arith, Bool, true, false, String, List, [], ◌∷◌, Option,
  none, some, All, map, ltb, if◌then◌else◌,
}
use beacn.Base.Int.{ℤ, pos}
use beacn.Base.Json.{Json, null, num, str, obj, Fields, end, field}
use beacn.Errors.{ok, raise_as, rate_limited, BeacnError}
use beacn.Events.Tests.{python}
use beacn.Events.Model.{Time}
use beacn.Auth.{resolve_api_key, bearer, key_prefix, is_live, words, require_scope}
use beacn.Auth.Tests.{orders_api, orders_key, used, hash}
use beacn.Ingest.Tests.{drawn}
use beacn.Api.{HttpRequest, enforce_size, read_json}
use beacn.Api.Publish.{batch_of}
use beacn.Api.Tests.{service}
use beacn.Events.{text_at, clean_str, parse_batch}
use beacn.Base.Strip.{strip}
use beacn.Store.{backwards}
use beacn.Store.Tests.{row_of, four_rows, four_rows-IsAscending}
use beacn.Events.Wire.{EventRow, stored_wire}
use beacn.History.{matches_query}
use beacn.History.Tests.{never}
use beacn.Sdk.{
  RetryPolicy, retry_policy, delay_for, should_retry, should_retry_failure, Reply, success,
  connection_error, http_error, returned, Outside, next_of, attempts_from, request,
}
use beacn.Sdk.Errors.{Values, error_for}
use beacn.Sdk.Retry.{IsBounded, request-IsBounded}
use beacn.Sdk.Keeps.{Leaves}
use beacn.Sdk.Network.{Fate, lost_answer, delivered, Network, over_network}
use beacn.Sdk.Once.{AtMostOnce, IsOnce, publish-IsOnce}
use beacn.Sdk.Mirror.{error_body, class_of, limit_details, wait_of, error_for-error_body}
use beacn.Sdk.Body.{Defaults}
use beacn.Sdk.Sse.{rstrip, iter_sse}
use beacn.Sdk.Sse.RoundTrip.{
  Frame, message, keepalive, IsFrame, stream_lines, meaning, iter_sse-stream_lines,
}
use beacn.Sdk.Subscribe.{Connection, overflow_error, events_of, stops, subscribe}
use beacn.Sdk.Outage.{IsSilent, subscribe-overflow}
use beacn.Auth.Tokens.{mint_realtime_token}
use beacn.Auth.Tests.{plain, plain-Decodes}
use beacn.Api.{HttpRequest, answered, reply, require_scopes, producer_endpoint}
use beacn.Api.Tokens.{token_request, issue_for, issue_realtime_token, Stands}
use beacn.Realtime.Session.{Backing}
use beacn.Realtime.Stream.{allowed_topics}
use beacn.Sdk.Joining.{IsPlain, join_commas, token_body_of, subscribe-allowed_topics}
use beacn.Sdk.Pages.{Filters, history_params, complete, iter_events}
use beacn.Sdk.Pages.Complete.{ask, wanted, asked, iter_events_complete}

abbrev values : Values
values = record { float_of = λ v. none; str_of_int = λ n. "503"; one_second = pos 100 }

abbrev busy_reply : ℕ → Reply
busy_reply n = if ltb n 2 then http_error 503 null none else success null

-- The service is busy for the first two requests; each takes ten ticks.
abbrev busy : Outside (ℕ × ℕ)
busy = record {
  send = λ n w. (busy_reply w.0, (w.0 + 1, w.1 + 10));
  time_of = λ w. w.1;
  sleep = λ d w. (w.0, w.1 + d);
  request_id = λ n. "req_1";
  values = values;
  uniform = λ n b. b;
  float_limit = 1000;
}

abbrev patient : RetryPolicy
patient = retry_policy 4 25 2000 9000 2 true

third_time : request busy patient true (0, 500) ≡ record {
  outcome = returned null;
  attempts = 3;
  sleeps = (510, 25) ∷ (545, 50) ∷ [];
  world = (3, 605);
}
unfolding request attempts_from next_of delay_for should_retry should_retry_failure error_for
    retry_policy
third_time = refl

within_bound : (n b : ℕ) → busy.uniform n b ≤ b
within_bound n b = omega arith

request-IsBounded_example : IsBounded patient 500 1 (request busy patient true (0, 500))
request-IsBounded_example = request-IsBounded busy 4 25 2000 9000 2 true true (0, 500) within_bound

abbrev paid_body : Fields
paid_body = field "event" (str "order.paid") (field "idempotency_key" (str "pay-1") end)

abbrev paid_request : HttpRequest
paid_request = record {
  authorization = none;
  content_length = none;
  ip = none;
  body = some (obj paid_body);
}

abbrev fate_of : ℕ → Fate
fate_of (suc zero) = lost_answer "timed out"
fate_of n = delivered

-- The first answer is lost.
abbrev lossy : Network
lossy = record {
  fate = fate_of;
  took = λ n. 10;
  now = λ n. pos 9;
  clock = λ n. n;
  request_id = λ n. "req_1";
  uniform = λ n b. b;
  float_limit = 1000;
  values = values;
  json_of = λ p. null;
  internal_error = null;
}

paid_key : text_at paid_body "idempotency_key" ≡ ok (some "pay-1")
unfolding text_at clean_str strip
paid_key = refl

paid_batch : batch_of python drawn 1000 1000000 paid_request ≡ ok (obj paid_body ∷ [])
unfolding enforce_size read_json parse_batch
paid_batch = refl

publish-IsOnce_example :
    Leaves
      (λ w.
        AtMostOnce python drawn 1000 1000000 orders_key orders_api paid_request lossy paid_body
          "pay-1" service w.0)
      (λ w v.
        IsOnce python drawn 1000 1000000 orders_key orders_api paid_request lossy paid_body "pay-1"
          service w.0)
      (request
        (over_network python drawn 1000 1000000 orders_key orders_api paid_request lossy)
        patient
        true
        (service, 500))
publish-IsOnce_example =
    publish-IsOnce python drawn 1000 1000000 orders_key orders_api paid_request lossy patient true
      paid_body "pay-1" service 500 paid_key paid_batch

abbrev too_many : BeacnError
too_many = record (raise_as rate_limited "publish rate limit exceeded") { retry_after = some 730 }

abbrev limits : Json
limits = obj (field "limit_per_minute" (num (pos 6000) 0) (field "burst" (num (pos 600) 0) end))

error_for-error_body_example :
    (error_for values 429
        (error_body "rate_limited" "publish rate limit exceeded" (some limits))
        "req_1"
      ≡ record {
        error_class = class_of rate_limited;
        message = str "publish rate limit exceeded";
        status = some 429;
        code = str "rate_limited";
        details = limits;
        request_id = some "req_1";
        retry_after = wait_of values rate_limited limits;
      })
    × ((error_for values 429
          (error_body "rate_limited" "publish rate limit exceeded" (some (limit_details 6000 600)))
          "req_1").retry_after
        ≡ some (pos 100))
error_for-error_body_example =
    error_for-error_body values too_many (some limits) 6000 600 "req_1" refl

abbrev two_items : List Fields
two_items = field "event" (str "order.paid") end ∷ field "event" (str "order.sent") end ∷ []

abbrev no_defaults : Defaults
no_defaults = record { default_topic = some "orders"; default_source = none }

abbrev digit : ℕ → String
digit zero = "0"
digit n = "1"

-- The network loses every attempt.
abbrev down : Outside (ℕ × ℕ)
down = record busy { send = λ n w. (connection_error "reset", (w.0 + 1, w.1 + 10)) }

abbrev two_frames : List Frame
two_frames = keepalive "p" ∷ message "a" ("b" ∷ []) ∷ message "c" [] ∷ []

two_frames-IsFrame : All IsFrame two_frames
two_frames-IsFrame =
    ((one, one), ((((one, one, refl), ((one, one, refl), tt))), (((one, one, refl), tt), tt)))
  where
    one : ◌≡◌ {A = Bool} false false × Unit {0}
    one = (refl, tt)

abbrev no_json : String → Option Json
no_json s = none

iter_sse-stream_lines_example :
    iter_sse no_json [] (stream_lines two_frames) ≡ meaning no_json two_frames
iter_sse-stream_lines_example = iter_sse-stream_lines no_json two_frames two_frames-IsFrame

abbrev broken : Connection
broken = record { lines = "data: x\n" ∷ []; is_closed = false }

broken-IsSilent : IsSilent no_json broken
unfolding iter_sse rstrip events_of
broken-IsSilent = record { no_events = refl; breaks = refl }

abbrev bound : ℕ → ℕ → ℕ
bound n b = b

-- Powers of two from 4 on overflow here.
subscribe-overflow_example :
    subscribe no_json bound 4 1 true 0 null (broken ∷ broken ∷ broken ∷ broken ∷ [])
    ≡ stops no_json bound 4 1 true null overflow_error
subscribe-overflow_example =
    subscribe-overflow no_json bound 4 1 2 0 null (broken ∷ broken ∷ broken ∷ []) (broken ∷ [])
      (broken-IsSilent, (broken-IsSilent, (broken-IsSilent, tt))) (omega arith) (omega arith)
      (omega arith)

abbrev of_orders : Filters
of_orders = record {
  topic = some "orders";
  event = none;
  event_prefix = none;
  kind = none;
  severity = none;
  correlation_id = none;
  since = none;
  until = none;
  order = "desc";
  limit = pos 2;
  cursor = none;
}

abbrev two : String → Option ℤ
two s = some (pos 2)

abbrev shown_two : ℤ → String
shown_two n = "2"

abbrev no_time : String → Option Time
no_time s = none

abbrev orders_rows : List EventRow
orders_rows = row_of "evt_4" "orders" ∷ row_of "evt_2" "orders" ∷ row_of "evt_1" "orders" ∷ []

orders_wanted :
    wanted never two no_time orders_api four_rows (
      asked never two no_time orders_api four_rows shown_two of_orders none none refl refl refl
        refl)
    ≡ orders_rows
unfolding backwards matches_query history_params
orders_wanted = refl

iter_events_complete_example :
    ((iter_events never (ask never two no_time orders_api four_rows) 4 shown_two of_orders).events
      ≡ map (stored_wire false) orders_rows)
    × ((iter_events never (ask never two no_time orders_api four_rows) 4 shown_two of_orders).ended
        ≡ complete)
unfolding backwards matches_query history_params
iter_events_complete_example =
    iter_events_complete never two no_time orders_api four_rows shown_two of_orders none none refl
      refl refl refl 4 four_rows-IsAscending (refl, (refl, (refl, (refl, tt)))) (omega arith)

a-IsPlain : IsPlain "a"
unfolding strip
a-IsPlain = record {
  named = refl;
  no_comma = (refl, tt);
  trimmed = refl;
  no_star = (refl, tt);
  no_mark = (refl, tt);
  no_bracket = (refl, tt);
}

b-IsPlain : IsPlain "b:"
unfolding strip
b-IsPlain = record {
  named = refl;
  no_comma = (refl, (refl, tt));
  trimmed = refl;
  no_star = (refl, (refl, tt));
  no_mark = (refl, (refl, tt));
  no_bracket = (refl, (refl, tt));
}

abbrev two_topics : List String
two_topics = "a" ∷ "b:" ∷ []

abbrev no_rows : Backing
no_rows = record { topics = []; events = []; replay_max_events = 10 }

abbrev reader : HttpRequest
reader = record {
  authorization = some "Bearer bk_ab12_s3cret";
  content_length = none;
  ip = none;
  body = none;
}

issued_run :
    (issue_realtime_token plain 900 "key" hash reader true
      (orders_key ∷ [])
      (token_body_of two_topics)
      (pos 9)
      1000).0.0
    ≡ answered
        (reply 201 (issue_for plain 900 "key" used orders_api (token_body_of two_topics) 1000))
unfolding issue_realtime_token producer_endpoint resolve_api_key bearer key_prefix is_live strip
    words require_scopes require_scope
issued_run = refl

still_alive :
    1500
    < 1000 + (issue_for plain 900 "key" used orders_api (token_body_of two_topics) 1000).expires_in
unfolding issue_for mint_realtime_token token_request
still_alive = omega arith

subscribe-allowed_topics_example :
    (t : Stands plain 900 "key" hash reader
      (orders_key ∷ [])
      (pos 9)
      1500
      (token_body_of two_topics)
      (issue_for plain 900 "key" used orders_api (token_body_of two_topics) 1000))
    × (allowed_topics no_rows t.grant (some (join_commas two_topics)) ≡ two_topics)
subscribe-allowed_topics_example =
    subscribe-allowed_topics plain 900 "key" hash reader true (orders_key ∷ []) two_topics no_rows
      (pos 9) 1000 1500 (issue_for plain 900 "key" used orders_api (token_body_of two_topics) 1000)
      plain-Decodes (a-IsPlain, (b-IsPlain, tt)) issued_run still_alive
