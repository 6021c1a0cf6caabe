-- ===== src/Notifications/Tests.antt =====
-- A notification that an event makes, and what marking it does to the lists.
use beacn.Base.{◌≡◌, refl, String, List, [], ◌∷◌, Option, none, some}
use beacn.Base.Int.{ℤ, pos}
use beacn.Base.Json.{str, num, field, end}
use beacn.Errors.{err, uncaught}
use beacn.Events.Model.{Envelope}
use beacn.Events.Tests.{python}
use beacn.Ingest.Tests.{paid}
use beacn.Notifications.{Notification, ListQuery, from_event, list_limit, list_notifications}

abbrev noticed : Envelope
noticed = record (paid "evt_5" none) {
  event = "notification.sent";
  payload =
      field "user_id" (num (pos 7) 0)
        (field "title" (str "Paid") (field "message" (str "Thanks") end));
}

abbrev note : Notification
note = record {
  id = "ntf_1";
  environment = "production";
  event_id = "evt_5";
  recipient = "?";
  type = "general";
  title = some (str "Paid");
  body = some (str "Thanks");
  channel = "in_app";
  topic = "orders";
  producer_name = "orders-api";
  severity = "info";
  delivery_status = "delivered";
  read_at = none;
}

made : from_event python "ntf_1" noticed ≡ note
unfolding from_event
made = refl

abbrev unread : ListQuery
unread = record { recipient = none; unread = some "1"; cursor = none; limit = none }

abbrev all : ListQuery
all = record { recipient = none; unread = none; cursor = none; limit = some "many" }

abbrev rows : List Notification
rows =
    record note { id = "ntf_3"; environment = "staging" } ∷ record note { id = "ntf_2" } ∷ note ∷ []

abbrev no_number : String → Option ℤ
no_number s = none

not_a_limit : list_notifications no_number "production" all rows ≡ err uncaught
unfolding list_notifications
not_a_limit = refl

limits : (list_limit (pos 0) ≡ 1) × (list_limit (pos 900) ≡ 200)
unfolding list_limit
limits = (refl, refl)
