-- ===== src/Sdk/Network.antt =====
-- The client of sdk/python/beacn.py over a network that loses requests and answers, and the publishing
-- route of routes/api/v1.py behind it. Nobody else publishes meanwhile.
use beacn.Base.{ℕ, ◌+◌, String, none, leb, if◌then◌else◌}
use beacn.Base.Json.{Json}
use beacn.Events.Model.{Time, Python}
use beacn.Auth.{ApiKey, Producer}
use beacn.Api.{HttpRequest, Payload, Answer, answered, server_error, answer_of}
use beacn.Api.Publish.{State, Published, publish_events}
use beacn.Sdk.{Reply, success, http_error, connection_error, Outside}
use beacn.Sdk.Errors.{Values}

-- What the network does to an attempt.
pub data Fate : Type 0 where
  lost_request lost_answer : (message : String) → Fate
  delivered : Fate

-- What is outside of both, for each attempt: its fate and how long it takes, and the service's time and
-- clock when it reads the request.
pub record Network : Type 0 where
  pub fate : ℕ → Fate
  pub took : ℕ → ℕ
  pub now : ℕ → Time
  pub clock : ℕ → ℕ
  pub request_id : ℕ → String
  pub uniform : ℕ → ℕ → ℕ
  pub float_limit : ℕ
  pub values : Values
  -- The JSON of an answer, and that of an error which the framework makes.
  pub json_of : Payload Published → Json
  pub internal_error : Json

-- The answer, as the client reads it: a status of 400 and above is an HTTP error.
abbrev pub reply_of : Network → Answer Published → Reply
reply_of net (answered r) =
    if leb 400 r.status_code
    then http_error r.status_code (net.json_of r.content) none
    else success (net.json_of r.content)
reply_of net server_error = http_error 500 net.internal_error none

module _ (py : Python) (event_id : ℕ → String) (ticks max_request_bytes : ℕ) (key : ApiKey)
    (producer : Producer) (request_sent : HttpRequest) (net : Network) where
  abbrev pub served : ℕ → State → Answer Published × State
  served n s = answer_of (
      publish_events py event_id ticks max_request_bytes request_sent (net.now n) (net.clock n) key
        producer s)

  -- The state of the service, and the client's clock.
  abbrev pub over : Fate → ℕ → State × ℕ → Reply × (State × ℕ)
  over (lost_request message) n w = (connection_error message, (w.0, w.1 + net.took n))
  over (lost_answer message) n w = (connection_error message, ((served n w.0).1, w.1 + net.took n))
  over delivered n w = (reply_of net (served n w.0).0, ((served n w.0).1, w.1 + net.took n))

  abbrev pub over_network : Outside (State × ℕ)
  over_network = record {
    send = λ n w. over (net.fate n) n w;
    time_of = λ w. w.1;
    sleep = λ d w. (w.0, w.1 + d);
    request_id = net.request_id;
    values = net.values;
    uniform = net.uniform;
    float_limit = net.float_limit;
  }
