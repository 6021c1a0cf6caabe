-- ===== src/Notifications.antt =====
-- database/models/notification.py, and the routes of routes/api/v1.py that list notifications and mark
-- them as read.
pub mod Reading
pub mod Tests
use Prim.Native.String
use beacn.Base.{
  ℕ, zero, suc, Bool, true, false, ◌&&◌, ◌||◌, not, String, List, [], ◌∷◌, ◌++◌, map, Option, none,
  some, or_default, is_none, is_some, is_empty, find, keep, ltb, ◌==◌, if◌then◌else◌,
}
use beacn.Base.Int.{ℤ, pos, negsuc}
use beacn.Base.Json.{Json, str, null, get, is_true, or_else, if_true}
use beacn.Errors.{Result, ok, err, ◌>>=◌, uncaught, raise, not_found}
use beacn.Events.Model.{Time, Envelope, Python}
use beacn.Store.Order.{str_gtb}
use beacn.Paging.{Page, page_of, behind}

pub record Notification : Type 0 where
  pub id : String
  pub environment : String
  pub event_id : String
  pub recipient : String
  pub type : String
  pub title : Option Json
  pub body : Option Json
  pub channel : String
  pub topic : String
  pub producer_name : String
  pub severity : String
  pub delivery_status : String
  pub read_at : Option Time

-- `s[:n]`
abbrev pub cut : ℕ → String → String
cut zero s = ""
cut (suc n) Prim.Native.String.[] = ""
cut (suc n) (Prim.Native.String.◌∷◌ c s) = Prim.Native.String.◌∷◌ c (cut n s)

-- `str(v)`
abbrev pub str_of : Python → Json → String
str_of py (str s) = s
str_of py v = py.str_of v

abbrev pub text_or_null : Option String → Json
text_or_null none = null
text_or_null (some s) = str s

-- `Notification.from_event(env)`: the row that is created; `id` is the id that is drawn.
unfoldable pub from_event : Python → String → Envelope → Notification
from_event py id env = record {
  id = id;
  environment = env.environment;
  event_id = env.id;
  recipient = str_of py (
      or_else
        (or_else (or_else (get env.payload "recipient") (get env.payload "user_id"))
          (text_or_null env.user_id))
        (str "unknown"));
  type = cut 80 (str_of py (or_else (get env.payload "type") (str "general")));
  title = if_true (get env.payload "title");
  body = if_true (or_else (get env.payload "body") (get env.payload "message"));
  channel = cut 40 (str_of py (or_else (get env.payload "channel") (str "in_app")));
  topic = env.topic;
  producer_name = env.producer;
  severity = env.severity;
  delivery_status =
      cut 16 (str_of py (or_else (get env.payload "delivery_status") (str "delivered")));
  read_at = none;
}

-- `n.is_read`
abbrev pub is_read : Notification → Bool
is_read n = is_some n.read_at

-- `max(1, min(200, n))`
unfoldable pub list_limit : ℤ → ℕ
list_limit (pos n) = if ltb 200 n then 200 else if ltb n 1 then 1 else n
list_limit (negsuc n) = 1

-- The query of a list: its texts are none where the request does not have them.
pub record ListQuery : Type 0 where
  pub recipient : Option String
  pub unread : Option String
  pub cursor : Option String
  pub limit : Option String

abbrev pub is_text : Option String → String → Bool
is_text none column = true
is_text (some s) column = is_empty s || column == s

-- `n = await Notification.filter(…)`, before the cursor.
abbrev pub is_listed : String → ListQuery → Notification → Bool
is_listed environment q n =
    n.environment == environment
    && is_text q.recipient n.recipient
    && (not (or_default q.unread "" == "1") || is_none n.read_at)

abbrev pub notification_id : Notification → String
notification_id n = n.id

-- `int(q.get("limit") or 50)`; `int_of` is `int` of a text, none where it raises.
abbrev pub limit_of : (String → Option ℤ) → Option String → Result ℤ
limit_of int_of given =
    if is_empty (or_default given "")
    then ok (pos 50)
    else elim (int_of (or_default given "")) [ none ↦ err uncaught | some n ↦ ok n ]

abbrev pub page_at : String → ListQuery → ℤ → List Notification → Page Notification
page_at environment q n rows =
    page_of notification_id (list_limit n)
      (keep (behind notification_id str_gtb q.cursor) (keep (is_listed environment q) rows))

-- `list_notifications(ctx)`, on the table in the descending order of its ids.
unfoldable pub list_notifications :
    (String → Option ℤ) → String → ListQuery → List Notification → Result (Page Notification)
list_notifications int_of environment q rows = do
  n ← limit_of int_of q.limit
  ok (page_at environment q n rows)

abbrev pub is_named : String → String → Notification → Bool
is_named environment id n = n.environment == environment && n.id == id

abbrev pub read_once : Time → Notification → Notification
read_once now n = record n { read_at = some (or_default n.read_at now) }

-- `mark_notification_read(ctx, notification_id)`: what it answers, and the rows.
unfoldable pub mark_notification_read :
    String → String → Time → List Notification → Result String × List Notification
mark_notification_read environment id now rows = elim (find (is_named environment id) rows) [
  | none ↦ (raise not_found "no notification", rows)
  | some row ↦ (ok row.id, map (λ n. if is_named environment id n then read_once now n else n) rows)
]
