-- ===== src/Control/Access.antt =====
-- Who gets through to a route of the control plane.
use beacn.Base.{
  ◌≡◌, refl, ap, sym, ◌∙◌, ◌⊎◌, inl, inr, Bool, true, false, ◌&&◌, ◌||◌, not, String, List, [], ◌∷◌,
  Option, none, some, arith, or_default, is_empty, elem, find, All, Bool-cases, if◌then◌else◌,
}
use beacn.Errors.{Failure, Result, ok, err, raise, authentication, ok-injective}
use beacn.Events.Model.{Time}
use beacn.Api.{Response, Answer, answer_of}
use beacn.Control.{
  User, UserSession, ControlRequest, permissions_of, first_missing, require, session_is_live,
  is_safe, has_hash, update, seen_at, session_token, active_user, user_of, unauthenticated,
  bearer_actor, control_actor, forbidden, control_endpoint,
}

-- The request comes from the user: by the cookie of its browser, where a request that writes also has
-- the header of the application; or by the token of a live session of an active user.
pub data IsActor (sha256 : String → String) (request : ControlRequest) (sessions : List UserSession)
    (now : Time) (user : User) : Type 0 where
  by_cookie :
      request.user ≡ some user
      → user.is_authenticated ≡ true
      → (is_safe request.method || not (is_empty (or_default request.control_header ""))) ≡ true
      → IsActor sha256 request sessions now user
  by_session :
      (token : String) (session : UserSession)
      → session_token request.authorization ≡ some token
      → find (has_hash (sha256 token)) sessions ≡ some session
      → session_is_live session now ≡ true
      → session.user ≡ some user
      → user.is_active ≡ true
      → IsActor sha256 request sessions now user

-- The user is an owner, or holds each permission.
pub Holds : User → List String → Type 0
Holds user permissions =
    (user.is_superuser ≡ true) ⊎ All (λ p. elem p (permissions_of (some user)) ≡ true) permissions

-- How a route of the control plane ends: turned away, where nothing but the sessions is touched; or
-- entered by a user that may, and then as the handler ends.
pub data Enters {B S : Type 0} (sha256 : String → String) (permissions : List String)
    (handler : User → List UserSession × S → Result (Response B) × (List UserSession × S))
    (request : ControlRequest) (now : Time) (sessions : List UserSession) (s : S)
    (result : Answer B × (List UserSession × S)) : Type 0 where
  turned_away : result.1.1 ≡ s → Enters sha256 permissions handler request now sessions s result
  entered :
      (user : User) (sessions' : List UserSession)
      → IsActor sha256 request sessions now user
      → Holds user permissions
      → result ≡ answer_of (handler user (sessions', s))
      → Enters sha256 permissions handler request now sessions s result

first_missing-All :
    (held permissions : List String)
    → first_missing held permissions ≡ none
    → All (λ p. elem p held ≡ true) permissions
first_missing-All held [] h = tt
first_missing-All held (p ∷ permissions) h = elim (Bool-cases (elem p held)) [
  | inl has ↦ (has, first_missing-All held permissions (rw has at h))
  | inr lacks ↦ absurd (ground (arith, h, lacks))
]

owner-or : (b : Bool) (m : Option String) → (if b then none else m) ≡ none → (b ≡ true) ⊎ (m ≡ none)
owner-or true m h = inl refl
owner-or false m h = inr h

require-Holds :
    (user : User) (permissions : List String)
    → require (some user) permissions ≡ none
    → Holds user permissions
unfolding require Holds
require-Holds user permissions h =
    elim (owner-or user.is_superuser (first_missing (permissions_of (some user)) permissions) h) [
      | inl owner ↦ inl owner
      | inr all ↦ inr (first_missing-All (permissions_of (some user)) permissions all)
    ]

if-some :
    (b : Bool) (o : Option User) (user : User)
    → (if b then o else none) ≡ some user
    → (b ≡ true) × (o ≡ some user)
if-some true o user h = (refl, h)
if-some false o user h = absurd (cc)

active_user-some :
    (o : Option User) (user : User)
    → active_user o ≡ some user
    → (o ≡ some user) × (user.is_active ≡ true)
active_user-some none user h = absurd (cc)
active_user-some (some u) user h =
    let (active, same) = if-some u.is_active (some u) user h in
    let is_user : u ≡ user = cc in (same, ap (λ v. v.is_active) (sym is_user) ∙ active)

answer-err : (B S : Type 0) (e : Failure) (s : S) → (answer_of {B = B} (err e, s)).1 ≡ s
answer-err B S (Failure.beacn_error e) s = refl
answer-err B S Failure.uncaught s = refl

module _ (sha256 : String → String) where
  user_of-live :
      (now : Time) (found : Option UserSession) (user : User)
      → user_of now found ≡ some user
      → (session : UserSession) × ((found ≡ some session)
          × (session_is_live session now ≡ true)
          × (session.user ≡ some user)
          × (user.is_active ≡ true))
  user_of-live now none user h = absurd (cc)
  user_of-live now (some session) user h =
      let (lives, owner) =
        if-some (session_is_live session now) (active_user session.user) user h in
      let (known, active) = active_user-some session.user user owner in
      (session, (refl, lives, known, active))

  bearer_actor-IsActor :
      (request : ControlRequest) (sessions : List UserSession) (now : Time) (user : User)
      → (bearer_actor sha256 request.authorization sessions now).0 ≡ ok user
      → IsActor sha256 request sessions now user
  unfolding bearer_actor
  bearer_actor-IsActor request sessions now user h =
      go (session_token request.authorization) (λ token e. e) h
    where
      found : String → Option UserSession
      found token = find (has_hash (sha256 token)) sessions

      seen : (token : String) (o : Option User) → Result User × List UserSession
      seen token o = elim o [
        | none ↦ (unauthenticated, sessions)
        | some user ↦ (ok user, update (sha256 token) (seen_at now) sessions)
      ]

      seen-ok : (token : String) (o : Option User) → (seen token o).0 ≡ ok user → o ≡ some user
      seen-ok token none h = absurd (cc)
      seen-ok token (some u) h = ap some (ok-injective h)

      go :
          (t : Option String)
          → ((token : String) → t ≡ some token → session_token request.authorization ≡ some token)
          → (elim t as (λ x. Result User × List UserSession) [
            | none ↦ (unauthenticated, sessions)
            | some token ↦ seen token (user_of now (found token))
          ]).0
            ≡ ok user
          → IsActor sha256 request sessions now user
      go none back h = absurd (cc)
      go (some token) back h =
          let (session, (stored, lives, owned, active)) =
            user_of-live now (found token) user (seen-ok token (user_of now (found token)) h) in
          by_session token session (back token refl) stored lives owned active

  control_actor-IsActor :
      (request : ControlRequest) (sessions : List UserSession) (now : Time) (user : User)
      → (control_actor sha256 request sessions now).0 ≡ ok user
      → IsActor sha256 request sessions now user
  unfolding control_actor
  control_actor-IsActor request sessions now user h = go request.user refl h
    where
      by_bearer : Result User × List UserSession
      by_bearer = bearer_actor sha256 request.authorization sessions now

      guard : User → Bool
      guard u = not (is_safe request.method) && is_empty (or_default request.control_header "")

      passed :
          (member bare : Bool) (u : User) (rest : Result User × List UserSession)
          → (if member
              then (if bare
                  then (
                    raise authentication
                        "missing X-BEACN-Control header on a session-authenticated write",
                    sessions,
                  )
                  else (ok u, sessions))
              else rest).0
            ≡ ok user
          → ((member ≡ true) × (bare ≡ false) × (u ≡ user)) ⊎ (rest.0 ≡ ok user)
      passed false bare u rest h = inr h
      passed true true u rest h = absurd (cc)
      passed true false u rest h = inl (refl, refl, ok-injective h)

      go :
          (o : Option User)
          → request.user ≡ o
          → (elim o as (λ x. Result User × List UserSession) [
            | none ↦ by_bearer
            | some u ↦
                if u.is_authenticated
                then (if guard u
                    then (
                      raise authentication
                          "missing X-BEACN-Control header on a session-authenticated write",
                      sessions,
                    )
                    else (ok u, sessions))
                else by_bearer
          ]).0
            ≡ ok user
          → IsActor sha256 request sessions now user
      go none e h = bearer_actor-IsActor request sessions now user h
      go (some u) e h = elim (passed u.is_authenticated (guard u) u by_bearer h) [
        | inr bearer ↦ bearer_actor-IsActor request sessions now user bearer
        | inl (member, sent, is_user) ↦
            by_cookie (e ∙ ap some is_user) (ap (λ v. v.is_authenticated) (sym is_user) ∙ member)
              (ground (arith, sent))
      ]

-- A handler of the control plane runs only for a request that comes from a user by the cookie of its
-- browser, with the header of the application if it writes, or by the token of a live session of an
-- active user, never by an API key; and the user is an owner or holds every permission of the route.
-- For any other request the state behind the handler stays as it was.
pub control_endpoint-Enters :
    {B S : Type 0} (sha256 : String → String) (permissions : List String)
    (handler : User → List UserSession × S → Result (Response B) × (List UserSession × S))
    (request : ControlRequest) (now : Time) (sessions : List UserSession) (s : S)
    → Enters sha256 permissions handler request now sessions s
        (control_endpoint sha256 permissions handler request now (sessions, s))
unfolding control_endpoint
control_endpoint-Enters {B} {S} sha256 permissions handler request now sessions s =
    go (control_actor sha256 request sessions now)
      (control_actor-IsActor sha256 request sessions now)
  where
    on_permission : User → List UserSession → Option String → Answer B × (List UserSession × S)
    on_permission user sessions' missing = elim missing [
      | some permission ↦ (forbidden sha256 permission, (sessions', s))
      | none ↦ answer_of (handler user (sessions', s))
    ]

    allowed :
        (user : User) (sessions' : List UserSession) (missing : Option String)
        → IsActor sha256 request sessions now user
        → (missing ≡ none → Holds user permissions)
        → Enters sha256 permissions handler request now sessions s
            (on_permission user sessions' missing)
    allowed user sessions' none actor holds = entered user sessions' actor (holds refl) refl
    allowed user sessions' (some permission) actor holds = turned_away refl

    go :
        (r : Result User × List UserSession)
        → ((user : User) → r.0 ≡ ok user → IsActor sha256 request sessions now user)
        → Enters sha256 permissions handler request now sessions s
            (elim r.0 as (λ x. Answer B × (List UserSession × S)) [
              | err e ↦ answer_of (err e, (r.1, s))
              | ok user ↦ on_permission user r.1 (require (some user) permissions)
            ])
    go (ok user, sessions') actor =
        allowed user sessions' (require (some user) permissions) (actor user refl)
          (require-Holds user permissions)
    go (err e, sessions') actor =
        turned_away (ap (λ p. p.1) (answer-err B (List UserSession × S) e (sessions', s)))
