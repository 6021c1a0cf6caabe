-- ===== src/Control.antt =====
-- routes/api/control.py: the control plane, as the command line and automation use it; and what its
-- routes share, of routes/api/_common.py (`control_actor`, `control_endpoint`) and app/authz.py.
pub mod Topics
pub mod Access
pub mod Login
pub mod Roles
pub mod Producers
pub mod Users
pub mod Playground
pub mod Tests
use Prim.Native.String
use beacn.Base.{
  ℕ, ◌+◌, ◌*◌, Bool, true, false, ◌&&◌, ◌||◌, not, String, List, [], ◌∷◌, ◌++◌, map, Option, none,
  some, or_default, is_none, is_empty, elem, find, ◌==◌, if◌then◌else◌,
}
use beacn.Base.Int.{ℤ, pos, ltb_ℤ, ◌+ℤ◌}
use beacn.Base.Strip.{strip}
use beacn.Errors.{Result, ok, err, raise, authentication, status, authorization}
use beacn.Events.Model.{Time}
use beacn.Auth.{is_scheme, behind_bk, has_not_passed}
use beacn.Api.{Response, Answer, answered, error_payload, answer_of}

-- `CATALOGUE`, its names.
abbrev pub catalogue : List String
catalogue =
    "events.read" ∷ "events.publish" ∷ "events.replay" ∷ "topics.read" ∷ "topics.write"
    ∷ "producers.read" ∷ "producers.write" ∷ "apikeys.read" ∷ "apikeys.write" ∷ "connections.read"
    ∷ "connections.write" ∷ "tasks.read" ∷ "notifications.read" ∷ "subscriptions.read"
    ∷ "subscriptions.write" ∷ "audit.read" ∷ "users.read" ∷ "users.write" ∷ "settings.read" ∷ []

-- An operator; `permissions` is what `load_permissions` gives, nothing where it raises.
pub record User : Type 0 where
  pub id : ℕ
  pub email : String
  pub is_authenticated : Bool
  pub is_superuser : Bool
  pub is_active : Bool
  pub permissions : List String

-- A row of `user_sessions`, with its user.
pub record UserSession : Type 0 where
  pub user : Option User
  pub key_hash : String
  pub kind : String
  pub last_seen_at : Option Time
  pub expires_at : Option Time
  pub revoked_at : Option Time
  pub revoked_reason : Option String

-- `user` is what the session cookie stands for.
pub record ControlRequest : Type 0 where
  pub user : Option User
  pub method : String
  pub control_header : Option String
  pub authorization : Option String

-- `permissions_of(user)`
unfoldable pub permissions_of : Option User → List String
permissions_of none = []
permissions_of (some user) =
    if not user.is_authenticated
    then []
    else if user.is_superuser
    then catalogue
    else user.permissions

abbrev pub first_missing : List String → List String → Option String
first_missing held [] = none
first_missing held (permission ∷ permissions) =
    let rest = first_missing held permissions in
    if elem permission held then rest else some permission

-- The name of the permission that `require(user, *permissions)` misses; none where it passes.
unfoldable pub require : Option User → List String → Option String
require none permissions = some (elim permissions [ [] ↦ "authenticated" | p ∷ ps ↦ p ])
require (some user) permissions =
    if user.is_superuser then none else first_missing (permissions_of (some user)) permissions

-- `session.is_live`
unfoldable pub session_is_live : UserSession → Time → Bool
session_is_live session now = is_none session.revoked_at && has_not_passed session.expires_at now

abbrev pub is_safe : String → Bool
is_safe method = method == "GET" || method == "HEAD" || method == "OPTIONS"

abbrev pub has_hash : String → UserSession → Bool
has_hash digest session = session.key_hash == digest

-- The row of that hash saved, of which there is one.
abbrev pub update : String → (UserSession → UserSession) → List UserSession → List UserSession
update digest change sessions = map (λ s. if has_hash digest s then change s else s) sessions

abbrev pub seen_at : Time → UserSession → UserSession
seen_at now session = record session { last_seen_at = some now }

abbrev pub unauthenticated : Result User
unauthenticated = raise authentication "authentication required"

-- `header[7:].strip()` of a bearer header that bears no API key.
abbrev pub session_token : Option String → Option String
session_token header = elim (is_scheme (or_default header "")) [
  | none ↦ none
  | some rest ↦ elim (behind_bk (strip rest)) [ none ↦ some (strip rest) | some key ↦ none ]
]

abbrev pub active_user : Option User → Option User
active_user none = none
active_user (some user) = if user.is_active then some user else none

-- The user of a live session.
abbrev pub user_of : Time → Option UserSession → Option User
user_of now none = none
user_of now (some session) = if session_is_live session now then active_user session.user else none

-- `sha256` is the digest of a token.
module _ (sha256 : String → String) where
  -- The part of `control_actor` behind the cookie.
  unfoldable pub bearer_actor :
      Option String → List UserSession → Time → Result User × List UserSession
  bearer_actor header sessions now = elim (session_token header) [
    | none ↦ (unauthenticated, sessions)
    | some token ↦ elim (user_of now (find (has_hash (sha256 token)) sessions)) [
      | none ↦ (unauthenticated, sessions)
      | some user ↦ (ok user, update (sha256 token) (seen_at now) sessions)
    ]
  ]

  -- `control_actor(ctx)`
  unfoldable pub control_actor :
      ControlRequest → List UserSession → Time → Result User × List UserSession
  control_actor request sessions now =
      let by_bearer = bearer_actor request.authorization sessions now in
      elim request.user [
        | none ↦ by_bearer
        | some user ↦
            if user.is_authenticated
            then (if not (is_safe request.method) && is_empty (or_default request.control_header "")
                then (
                  raise authentication
                      "missing X-BEACN-Control header on a session-authenticated write",
                  sessions,
                )
                else (ok user, sessions))
            else by_bearer
      ]

  abbrev pub forbidden : {B : Type 0} → String → Answer B
  forbidden permission = answered (record {
    status_code = 403;
    retry_after = none;
    content = error_payload "forbidden" (String.◌++◌ "missing permission: " permission);
  })

  -- `control_endpoint(*permissions)(handler)`; the handler works on the sessions, too.
  unfoldable pub control_endpoint :
      {B S : Type 0}
      → List String
      → (User → List UserSession × S → Result (Response B) × (List UserSession × S))
      → ControlRequest
      → Time
      → List UserSession × S
      → Answer B × (List UserSession × S)
  control_endpoint permissions handler request now (sessions, s) =
      let (actor, sessions') = control_actor request sessions now in
      elim actor [
        | err e ↦ answer_of (err e, (sessions', s))
        | ok user ↦ elim (require (some user) permissions) [
          | some permission ↦ (forbidden permission, (sessions', s))
          | none ↦ answer_of (handler user (sessions', s))
        ]
      ]
