-- ===== src/Control/Playground/Tests.antt =====
-- An operator that publishes as the producer of the orders, and watches.
use beacn.Base.{◌≡◌, refl, [], ◌∷◌, none, some, ◌⊎◌}
use beacn.Base.Int.{pos}
use beacn.Base.Strip.{strip}
use beacn.Base.Json.{obj}
use beacn.Errors.{Failure, ok, err}
use beacn.Auth.Tokens.{mint_realtime_token}
use beacn.Auth.Tests.{orders_api, orders_key, plain}
use beacn.Events as Events
use beacn.Events.{
  first_segment, kind_for, clean_str, parse_dt, event_name, topic_name, severity_of, payload_of,
  schema_version_of, core_of, text_at, optional_of, build, with_task_fields, ingest_object,
}
use beacn.Events.Names.{matches_event, matches_topic}
use beacn.Events.Model.{Envelope}
use beacn.Events.Tests.{python, spoofed, accepted}
use beacn.Ingest.Tests.{started, drawn}
use beacn.Api.Publish.{producer_context}
use beacn.Control.Playground.{
  playground_producer, playground_request, playground_token, playground_context, playground_publish,
}
use beacn.Control.Playground.Refusing.{Refusal}
use beacn.Control.Playground.Publishing.{Published, playground_publish-Published}

playground_publish-Published_example :
    Published python drawn "production" "prd_1" (orders_api ∷ []) (pos 9) started (
      playground_publish python drawn "production" "prd_1"
        (obj spoofed)
        (orders_api ∷ [])
        (pos 9)
        started)
    ⊎ ((e : Failure) × (playground_publish python drawn "production" "prd_1"
            (obj spoofed)
            (orders_api ∷ [])
            (pos 9)
            started
          ≡ (err e, started))
        × Refusal python "production" "prd_1"
            (obj spoofed)
            (orders_api ∷ [])
            (pos 9)
            (drawn started.ids_drawn)
            e)
playground_publish-Published_example =
    playground_publish-Published python drawn "production" "prd_1" (obj spoofed) (orders_api ∷ [])
      (pos 9) started

abbrev played : Envelope
played = record accepted { producer = "Orders API"; api_key_id = none }

abbrev sent_by_key : Envelope
sent_by_key = record accepted { api_key_id = some "key_1" }

reading : Unit {0}
unfolding Events.ingest ingest_object core_of event_name clean_str strip topic_name severity_of
    payload_of schema_version_of optional_of build with_task_fields text_at parse_dt kind_for
    first_segment matches_event matches_topic playground_context producer_context
reading = tt

read_played :
    Events.ingest python (obj spoofed) (playground_context "production" orders_api) (pos 5) "evt_1"
    ≡ ok played
unfolding reading
read_played = refl

read_by_key :
    Events.ingest python (obj spoofed) (producer_context orders_key orders_api) (pos 5) "evt_1"
    ≡ ok sent_by_key
unfolding reading
read_by_key = refl

minted :
    playground_token plain 900 "key" 1000 "production" "prd_1" (orders_api ∷ [])
    ≡ ok (
      (mint_realtime_token plain 900 "key" (playground_request "production" orders_api) 1000).0,
      600,
    )
unfolding playground_token playground_producer playground_request mint_realtime_token strip
minted = refl
