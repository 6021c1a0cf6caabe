-- ===== src/Notifications/Reading.antt =====
-- What it means to have read a notification.
use beacn.Base.{
  ◌≡◌, refl, ap, sym, Bool, true, false, ◌&&◌, not, String, List, [], ◌∷◌, map, none, or_default,
  arith, find, keep, Bool-cases, Option-cases, inl, inr, ◌==◌, eq_iff, if◌then◌else◌,
}
use beacn.Events.Model.{Time}
use beacn.Notifications.{
  Notification, ListQuery, is_listed, is_named, read_once, mark_notification_read,
}

-- The query asks for the notifications that are not read.
abbrev pub AsksUnread : ListQuery → Type 0
AsksUnread q = or_default q.unread "" ≡ "1"

keep-find :
    (environment id : String) (p : Notification → Bool) (rows : List Notification)
    → find (is_named environment id) rows ≡ none
    → keep (λ n. p n && not (is_named environment id n)) rows ≡ keep p rows
keep-find environment id p [] h = refl
keep-find environment id p (n ∷ rows) h = ground (arith, h, keep-find environment id p rows)

abbrev marked : String → String → Time → Notification → Notification
marked environment id now n = if is_named environment id n then read_once now n else n

and_false : (b : Bool) → (b && false) ≡ false
and_false b = ground arith

-- A notification that is read is in no list of unread ones.
read_once-listed :
    (environment : String) (now : Time) (q : ListQuery) (n : Notification)
    → AsksUnread q
    → is_listed environment q (read_once now n) ≡ false
read_once-listed environment now q n unread = rw unread (ground arith)

keep-marked :
    (environment id : String) (now : Time) (q : ListQuery) (rows : List Notification)
    → AsksUnread q
    → keep (is_listed environment q) (map (marked environment id now) rows)
      ≡ keep (λ n. is_listed environment q n && not (is_named environment id n)) rows
keep-marked environment id now q [] unread = refl
keep-marked environment id now q (n ∷ rows) unread =
    let rest = keep-marked environment id now q rows unread in
    elim (Bool-cases (is_named environment id n)) [
      | inl own ↦
          let out = read_once-listed environment now q n unread in
          let out' = and_false (is_listed environment q n) in rw (own, out, out') rest
      | inr other ↦ rw other (ground (arith, rest))
    ]

named-away :
    (environment other id : String) (n : Notification)
    → is_named environment id n ≡ true
    → (other == environment) ≡ false
    → (n.environment == other) ≡ false
named-away environment other id n own apart = ground (
  arith,
  own,
  apart,
  eq_iff n.environment environment,
  eq_iff n.environment other,
  eq_iff other environment,
)

keep-marked_other :
    (environment other id : String) (now : Time) (q : ListQuery) (rows : List Notification)
    → (other == environment) ≡ false
    → keep (is_listed other q) (map (marked environment id now) rows)
      ≡ keep (is_listed other q) rows
keep-marked_other environment other id now q [] apart = refl
keep-marked_other environment other id now q (n ∷ rows) apart =
    let rest = keep-marked_other environment other id now q rows apart in
    elim (Bool-cases (is_named environment id n)) [
      | inl own ↦ let away = named-away environment other id n own apart in rw (own, away) rest
      | inr foreign ↦ rw foreign (ap (λ ns. if is_listed other q n then n ∷ ns else ns) rest)
    ]

-- Marking a notification as read takes exactly that notification out of every list of the unread ones
-- of its environment, and changes no list, read or unread, of another environment.
pub mark_notification_read-keep :
    (environment other id : String) (now : Time) (q r : ListQuery) (rows : List Notification)
    → AsksUnread q
    → (other == environment) ≡ false
    → (keep (is_listed environment q) (mark_notification_read environment id now rows).1
        ≡ keep (λ n. is_listed environment q n && not (is_named environment id n)) rows)
      × (keep (is_listed other r) (mark_notification_read environment id now rows).1
          ≡ keep (is_listed other r) rows)
unfolding mark_notification_read
mark_notification_read-keep environment other id now q r rows unread apart =
    elim (Option-cases (find (is_named environment id) rows)) [
      | inl missing ↦
          rw (missing, mark_notification_read)
            (sym (keep-find environment id (is_listed environment q) rows missing), refl)
      | inr (row, found) ↦
          rw (found, mark_notification_read)
            (
              keep-marked environment id now q rows unread,
              keep-marked_other environment other id now r rows apart,
            )
    ]
