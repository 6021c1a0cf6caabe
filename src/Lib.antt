-- ===== src/Lib.antt =====
-- BEACN is a service for realtime events. Producers publish events over REST with an API key; BEACN
-- validates each one, keeps it in a durable store, and fans it out to the consumers that have
-- joined its topic over WebSocket or server-sent events. A consumer that was away reads back what
-- it missed. This library models the core of the service, the Python code under domain/, app/,
-- database/models/, realtime/ and routes/api/, and its Python client, sdk/python/ and
-- integrations/, and proves what makes them correct.
--
-- How the parts work together. A request body goes through `Envelope.ingest` (Events), which takes
-- the identity of the producer from its key and the rest from the body. `ingest` (Ingest) drops the
-- repeats of an idempotency key, stores the row of the envelope (Store), hands task events to the
-- row of the task (Tasks), fans the wire form out, and propagates it by one hop. Every event has an
-- id whose text order is the order of creation (Ids); that order is what a replay (Replay) and the
-- pages of history (History) stand on, which share their cursor (Paging). What a consumer may join
-- or replay is decided by Topics from a grant, which Auth takes from an API key or from a signed
-- token; how much a key may send is decided by RateLimit. Api is the HTTP side of both. Realtime is
-- the WebSocket side: a connection, its frames and what the hub offers it; Bus carries events from
-- one instance to the others. Jobs removes what is past its retention. Control is the plane of the
-- operators: what they save there changes what Auth admits and where Ingest propagates an event.
-- Sdk is the client that producers and consumers use, and Integrations what hands Celery's signals
-- to it. Errors holds the exceptions of the domain as values, Base what all parts share: lists,
-- texts, integers, dicts and JSON.
--
-- Which file models which part:
--   Base       Python's values: text, int, dict, JSON as `json.loads` leaves it, `str.strip`.
--   Errors     domain/errors.py: classes, codes and statuses; `Result` is a call that may raise.
--   Ids        domain/ids.py: `tick` is one call of `_ulid` on the process state, `new_id`, `ulid_of`.
--   Topics     domain/topics.py: `Grant`, `default_spec`, `matches_pattern`, `authorize_subscription`;
--              Topics/Glob is `fnmatchcase` as a tokenizer and a matcher.
--   RateLimit  app/services/ratelimit.py: `TokenBucketLimiter.check` and `prune`.
--   Events     domain/events.py: `Envelope.ingest` with all of its checks, `parse_batch`;
--              Events/Wire is `to_wire`, `storage_row` and database/models/event.py.
--   Store      the `events` table, in the order of its primary key.
--   Paging     limit + 1 rows, the page, the next cursor.
--   Replay     app/services/replay.py: `replay`; `catch_up` is a consumer that asks again.
--   History    app/services/history.py: `HistoryQuery`, `query`, `get_one`; `read_all` asks again.
--   Tasks      database/models/task.py: `apply_event`; `observe` is its part between fetch and save.
--   Ingest     app/services/ingest.py: `ingest`, `_dedupe`, `_topic_settings`.
--   Auth       app/auth.py, database/models/producer.py: `resolve_api_key`, `require_scope`;
--              Auth/Tokens is `mint_realtime_token` and `grant_from_realtime_token`, Auth/Issue is
--              `ApiKey.issue`, `revoke`, `_normalise_scopes`, and `keys_rotate`.
--   Realtime   realtime/: Realtime/Protocol is `ClientFrame.parse` and the server's frames,
--              Realtime/Session is `_handle`, Realtime/Lifecycle is `run` and `shutdown`,
--              Realtime/Stream is `realtime_sse` of routes/api/realtime.py,
--              Realtime/Delivery is `Realtime`, Realtime/Hub what is asked of the hub of sillo_wire.
--   Bus        realtime/bus.py: `_SeenSet`, by which an instance knows the events it has delivered;
--              Bus/Redis is `RedisBus.publish` and `_listen`, for any number of instances.
--   Jobs       app/jobs.py: the deletions by age, `ReapConnections`, the counters of topics.
--   Notifications
--              database/models/notification.py: `from_event`; `list_notifications` and
--              `mark_notification_read` of routes/api/v1.py.
--   Api        routes/api/_common.py: `producer_endpoint`, `read_json`, `enforce_size`; Api/Publish and
--              Api/Tokens are `publish_events` and `issue_realtime_token` of routes/api/v1.py, Api/Lists
--              its `list_events`, `get_event`, `replay_events`, `list_tasks` and `get_task`.
--   Control    routes/api/control.py, and `control_actor` and `control_endpoint` of
--              routes/api/_common.py, with `require` of app/authz.py; Control/Login is `cli_login` and
--              `cli_logout`, Control/Topics is `topics_upsert`, Control/Roles is `ensure_roles`,
--              Control/Producers the creation and disabling of producers, and their keys,
--              Control/Users the accounts of operators, Control/Playground what an operator may
--              watch and publish.
--   Sdk        sdk/python/beacn.py: `Beacn._request` and `RetryPolicy`; Sdk/Errors is `_error_for`,
--              Sdk/Body the bodies that are sent, `Event` and `PublishResult`, Sdk/Config the addresses,
--              Sdk/Pages `history`, `Page` and `iter_events`, Sdk/Sse `_iter_sse`, Sdk/Subscribe
--              `subscribe`. Sdk/Network puts the client and the publishing route together.
--   Cli        cli/client.py: the credentials file, `ApiClient` and what it makes of an answer.
--   Stats      app/services/stats.py: `throughput_series`.
--   Settings   app/config.py: `Config`, `_bool`, `_int`, `cors_origins`, `check_production`.
--   Integrations
--              integrations/celery.py: `event_for`, `_emit` and the hooks.
-- A file below another holds a part of it (Api/Publish below Api), or proofs or tests about it
-- (Replay/Complete below Replay).
--
-- How the code is read. State is passed on: a function that changes the process or a table returns
-- the new state. A call that raises returns `err`, with `uncaught` for an exception that is none of
-- the domain's. Times are microseconds, and the limiter's clock ticks in its own unit, so that its
-- floats are exact fractions. Numbers of JSON are exact fractions; NaN and the infinities are left
-- out. A consumer's repeated requests (`catch_up`, `read_all`) run on fuel, a request each: the
-- theorems name an amount that is enough, one more than the rows that are left to read. The search
-- for a free prefix of a key (`fresh_prefix`) runs on the texts that are drawn, and more different
-- ones than there are keys are enough. A request of the client runs on as many attempts as its
-- policy allows, and it never needs more; `iter_events` runs on fuel, a page each. Nothing else is
-- bounded.
--
-- Code that is not the repository's is a parameter: what `json.dumps`, `str`, `float`, `int` and
-- the datetime functions return on the values at hand (`Python`, `Library`), the database's
-- `startswith`, the ids that a process draws while it propagates, SHA-256, the token library, the
-- hub of sillo_wire, the groups of sillo.permissions, and the test of a password. Texts that are
-- drawn at random are arguments. The client's delays are whole numbers of one small unit, a
-- multiplier of its policy is a whole number, and what is outside of it (the network, the clock,
-- sleeping) is an interface. Database tables are lists, read and written by one process at a time;
-- a failure of the database and the races of several processes are not modelled. What the task and
-- notification observers and the fan-out do is recorded in the state of Ingest as calls, since
-- ingestion drops their results.
--
-- Not modelled: the other REST routes of routes/api/v1.py, the lists of the control API, its audit
-- log, subscriptions and the termination of connections; the generator behind a stream of server-
-- sent events; the reconnection of the Redis listener after an error; the web console (routes/web/,
-- app/docs/, app/inertia.py, views/, js/), the queue that runs the jobs (app/queue.py), the
-- counts of the dashboard, metrics, the commands of cli/, migrations and database setup, the
-- consumer of the asynchronous client, sdk/typescript/, integrations/django.py, benchmarks and
-- examples: they are presentation, wiring, or code whose behaviour is that of a library.
pub mod Base
pub mod Errors
pub mod Ids
pub mod Topics
pub mod RateLimit
pub mod Events
pub mod Paging
pub mod Store
pub mod Replay
pub mod History
pub mod Tasks
pub mod Ingest
pub mod Auth
pub mod Bus
pub mod Realtime
pub mod Jobs
pub mod Notifications
pub mod Api
pub mod Control
pub mod Sdk
pub mod Integrations
pub mod Cli
pub mod Settings
pub mod Stats
