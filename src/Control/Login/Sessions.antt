-- ===== src/Control/Login/Sessions.antt =====
-- A session from the login to the logout.
use text.Mathlib.TextLemmas.{nil-append, cons-append}
use beacn.Base.{
  ◌≡◌, refl, ap, sym, subst, ◌∙◌, Bool, true, false, not, String, List, [], ◌∷◌, ◌++◌, Option, none,
  some, or_default, find, find-last, ◌==◌, eq_refl, Bool-cases, inl, inr, if◌then◌else◌,
}
use beacn.Base.Int.{ltb_ℤ, ◌+ℤ◌}
use beacn.Base.Strip.{strip}
use beacn.Errors.{ok}
use beacn.Events.Model.{Time}
use beacn.Auth.{is_scheme, behind_bk}
use beacn.Auth.Issue.Opening.{bearing}
use beacn.Control.{
  User, UserSession, ControlRequest, session_is_live, has_hash, update, session_token, active_user,
  user_of, unauthenticated, bearer_actor, control_actor,
}
use beacn.Control.Login.{
  Accounts, logged, thirty_days, new_session, refuse, has_email, token_behind, cli_login,
  signed_out, cli_logout,
}

-- A request of the command line, with its token.
pub from_cli : String → String → ControlRequest
from_cli method token = record {
  user = none;
  method = method;
  control_header = none;
  authorization = bearing token;
}

session_token-bearing :
    (token : String)
    → strip token ≡ token
    → behind_bk token ≡ none
    → session_token (bearing token) ≡ some token
session_token-bearing token whole other =
    ap (λ (o : Option String). session_token_of o) scheme ∙ rw (whole, other) (ap some whole)
  where
    scheme : is_scheme (or_default (bearing token) "") ≡ some token
    scheme =
        rw
          (
            cons-append, cons-append, cons-append, cons-append, cons-append, cons-append,
            cons-append, nil-append,
          )
          refl

    session_token_of : Option String → Option String
    session_token_of o = elim o [
      | none ↦ none
      | some rest ↦ elim (behind_bk (strip rest)) [ none ↦ some (strip rest) | some key ↦ none ]
    ]

token_behind-bearing :
    (lower : String → String) (check_password : User → String → Bool) (sha256 : String → String)
    (token : String)
    → strip token ≡ token
    → token_behind lower check_password sha256 (bearing token) ≡ token
token_behind-bearing lower check_password sha256 token whole =
    rw
      (
        cons-append, cons-append, cons-append, cons-append, cons-append, cons-append, cons-append,
        nil-append,
      )
      whole

-- The row of a hash after the rows of that hash are changed, by a change that keeps the hash.
find-update :
    (digest : String) (change : UserSession → UserSession) (sessions : List UserSession)
    (session : UserSession)
    → ((s : UserSession) → (change s).key_hash ≡ s.key_hash)
    → find (has_hash digest) sessions ≡ some session
    → find (has_hash digest) (update digest change sessions) ≡ some (change session)
find-update digest change [] session keeps h = absurd (cc)
find-update digest change (s ∷ sessions) session keeps h = elim (Bool-cases (has_hash digest s)) [
  | inl own ↦
      let here : some s ≡ some session = rw own at h in
      let same : s ≡ session = cc in
      let kept : has_hash digest (change s) ≡ true = ap (λ k. k == digest) (keeps s) ∙ own in
      rw (own, kept) (ap (λ r. some (change r)) same)
  | inr other ↦ rw (other, other) (find-update digest change sessions session keeps (rw other at h))
]

module _ (lower : String → String) (check_password : User → String → Bool)
    (sha256 : String → String) where
  -- What a login that is not refused went through.
  pub record LoggedIn (users : List User) (given password token : String) (now : Time)
      (a a' : Accounts) (user : User) : Type 0 where
    pub known : find (has_email lower check_password sha256 (lower (strip given))) users ≡ some user
    pub active : user.is_active ≡ true
    pub checked : check_password user password ≡ true
    pub sessions :
        a'.sessions ≡ a.sessions ++ new_session lower check_password sha256 user token now ∷ []

  cli_login-LoggedIn :
      (users : List User) (given password token t : String) (now : Time) (a a' : Accounts)
      → cli_login lower check_password sha256 users given password token now a ≡ (some t, a')
      → (user : User) × (LoggedIn users given password token now a a' user × (token ≡ t))
  unfolding cli_login
  cli_login-LoggedIn users given password token t now a a' h =
      go (find (has_email lower check_password sha256 (lower (strip given))) users) refl h
    where
      entry : User → Accounts
      entry user = logged (lower (strip given)) true "ok" (record a {
        sessions = a.sessions ++ new_session lower check_password sha256 user token now ∷ [];
      })

      admitted :
          (active right : Bool) (user : User) (x y z : Accounts)
          → ◌≡◌ {A = Option String × Accounts}
              (if not active then (none, x) else if not right then (none, y) else (some token, z))
              (some t, a')
          → (active ≡ true) × (right ≡ true) × (z ≡ a') × (token ≡ t)
      admitted false right user x y z h = absurd (cc)
      admitted true false user x y z h = absurd (cc)
      admitted true true user x y z h =
          (refl, refl, ap (λ r. r.1) h, ap (λ r. or_default r.0 token) h)

      go :
          (o : Option User)
          → find (has_email lower check_password sha256 (lower (strip given))) users ≡ o
          → (elim o as (λ x. Option String × Accounts) [
            | none ↦ refuse (lower (strip given)) "unknown_user" a
            | some user ↦
                if not user.is_active
                then refuse (lower (strip given)) "disabled" a
                else if not (check_password user password)
                then refuse (lower (strip given)) "bad_password" a
                else (some token, entry user)
          ])
            ≡ (some t, a')
          → (user : User) × (LoggedIn users given password token now a a' user × (token ≡ t))
      go none e h = absurd (cc)
      go (some user) e h =
          let (active, right, made, same) =
            admitted user.is_active (check_password user password) user
              (refuse (lower (strip given)) "disabled" a).1
              (refuse (lower (strip given)) "bad_password" a).1 (entry user) h in
          (
            user,
            (
              record {
                known = e;
                active = active;
                checked = right;
                sessions = ap (λ x. x.sessions) (sym made);
              },
              same,
            ),
          )

  bearer_actor-user :
      (header : Option String) (token : String) (sessions : List UserSession) (now : Time)
      (user : User)
      → session_token header ≡ some token
      → user_of now (find (has_hash (sha256 token)) sessions) ≡ some user
      → (bearer_actor sha256 header sessions now).0 ≡ ok user
  unfolding bearer_actor
  bearer_actor-user header token sessions now user h k = rw (h, bearer_actor, k) refl

  bearer_actor-nobody :
      (header : Option String) (token : String) (sessions : List UserSession) (now : Time)
      → session_token header ≡ some token
      → user_of now (find (has_hash (sha256 token)) sessions) ≡ none
      → (bearer_actor sha256 header sessions now).0 ≡ unauthenticated
  unfolding bearer_actor
  bearer_actor-nobody header token sessions now h k = rw (h, bearer_actor, k) refl

  user_of-new :
      (user : User) (token : String) (now later : Time)
      → ltb_ℤ later (now +ℤ thirty_days) ≡ true
      → user.is_active ≡ true
      → user_of later (some (new_session lower check_password sha256 user token now)) ≡ some user
  unfolding session_is_live
  user_of-new user token now later alive active =
      ap (λ (b : Bool). if b then active_user (some user) else none) alive
      ∙ ap (λ (b : Bool). if b then some user else none) active

  -- What the rows behind a login make of a token.
  Names :
      (users : List User) (given password token method t : String) (now later gone after : Time)
      (a a' : Accounts) (user : User)
      → Type 0
  Names users given password token method t now later gone after a a' user =
      LoggedIn users given password token now a a' user
      × ((control_actor sha256 (from_cli method t) a'.sessions later).0 ≡ ok user)
      × ((control_actor sha256 (from_cli method t)
            (cli_logout lower check_password sha256 (bearing t) gone a').sessions after).0
          ≡ unauthenticated)

  session_of_drawn :
      (users : List User) (given password token method : String) (now later gone after : Time)
      (a a' : Accounts) (user : User)
      → LoggedIn users given password token now a a' user
      → find (has_hash (sha256 token)) a.sessions ≡ none
      → strip token ≡ token
      → behind_bk token ≡ none
      → ltb_ℤ later (now +ℤ thirty_days) ≡ true
      → Names users given password token method token now later gone after a a' user
  unfolding Names control_actor bearer_actor session_is_live cli_logout from_cli
  session_of_drawn users given password token method now later gone after a a' user logged_in new
        whole other alive =
      let ns = new_session lower check_password sha256 user token now in
      let header = session_token-bearing token whole other in
      let stored : find (has_hash (sha256 token)) a'.sessions ≡ some ns =
        ap (find (has_hash (sha256 token))) logged_in.sessions
        ∙ find-last (has_hash (sha256 token)) a.sessions ns new (eq_refl (sha256 token)) in
      let out : find (has_hash (sha256 token))
            (update (sha256 token) (signed_out lower check_password sha256 gone) a'.sessions)
          ≡ some (signed_out lower check_password sha256 gone ns) =
        find-update (sha256 token) (signed_out lower check_password sha256 gone) a'.sessions ns
          (λ s. refl) stored in
      (
        logged_in,
        bearer_actor-user (bearing token) token a'.sessions later user header
            (ap (user_of later) stored ∙ user_of-new user token now later alive logged_in.active),
        bearer_actor-nobody (bearing token) token
            (cli_logout lower check_password sha256 (bearing token) gone a').sessions after header
            (ap (user_of after) (
              ap
                (λ k.
                  find (has_hash (sha256 token))
                    (update (sha256 k) (signed_out lower check_password sha256 gone) a'.sessions))
                (token_behind-bearing lower check_password sha256 token whole)
              ∙ out)),
      )

  -- The token that a login returns names its user at the control plane for thirty days, and after the
  -- logout that bears it, it names nobody at any time. The login found a user of that address who was
  -- active and whose password was right. The token that the login draws is no API key and neither
  -- begins nor ends in white space, and its digest is no earlier session's.
  pub cli_login-control_actor :
      (users : List User) (given password token t method : String) (now later gone after : Time)
      (a a' : Accounts)
      → cli_login lower check_password sha256 users given password token now a ≡ (some t, a')
      → find (has_hash (sha256 token)) a.sessions ≡ none
      → strip token ≡ token
      → behind_bk token ≡ none
      → ltb_ℤ later (now +ℤ thirty_days) ≡ true
      → (user : User) × (LoggedIn users given password token now a a' user
          × ((control_actor sha256 (from_cli method t) a'.sessions later).0 ≡ ok user)
          × ((control_actor sha256
                (from_cli method t)
                (cli_logout lower check_password sha256 (bearing t) gone a').sessions
                after).0
              ≡ unauthenticated))
  unfolding Names
  cli_login-control_actor users given password token t method now later gone after a a' h new whole
        other alive =
      let (user, known) = cli_login-LoggedIn users given password token t now a a' h in
      (
        user,
        subst (λ x. Names users given password token method x now later gone after a a' user)
            known.1
            (session_of_drawn users given password token method now later gone after a a' user
              known.0 new whole other alive),
      )
