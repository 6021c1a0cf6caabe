-- ===== src/Control/Login.antt =====
-- `cli_login` and `cli_logout` of routes/api/control.py: the session of the command line.
pub mod Sessions
use Prim.Native.String
use beacn.Base.{
  ℕ, ◌+◌, ◌*◌, ◌≡◌, refl, ap, sym, ◌∙◌, Bool, true, false, ◌&&◌, not, String, List, [], ◌∷◌, ◌++◌,
  map, Option, none, some, arith, or_default, is_empty, find, find-last, ◌==◌, eq_iff, eq_refl,
  Bool-cases, inl, inr, if◌then◌else◌,
}
use beacn.Base.Int.{ℤ, pos, ltb_ℤ, ◌+ℤ◌}
use beacn.Base.Strip.{strip}
use beacn.Errors.{Result, ok, err}
use beacn.Events.Model.{Time}
use beacn.Control.{
  User, UserSession, ControlRequest, session_is_live, has_hash, update, seen_at, session_token,
  user_of, unauthenticated, bearer_actor, control_actor,
}

-- A row of `login_events`.
pub record LoginEvent : Type 0 where
  pub email : String
  pub is_successful : Bool
  pub reason : String

pub record Accounts : Type 0 where
  pub sessions : List UserSession
  pub login_events : List LoginEvent

-- `timedelta(days=30)`, in microseconds.
abbrev pub thirty_days : ℤ
thirty_days = pos (30 * 24 * 3600000000)

-- `await LoginEvent.create(…)`
abbrev pub logged : String → Bool → String → Accounts → Accounts
logged email is_successful reason a = record a {
  login_events =
      a.login_events
      ++ record { email = email; is_successful = is_successful; reason = reason } ∷ [];
}

abbrev pub refuse : String → String → Accounts → Option String × Accounts
refuse email reason a = (none, logged (if is_empty email then "(blank)" else email) false reason a)

-- `s[n:]`
abbrev pub drop_text : ℕ → String → String
drop_text ℕ.zero s = s
drop_text (ℕ.suc n) Prim.Native.String.[] = ""
drop_text (ℕ.suc n) (Prim.Native.String.◌∷◌ c s) = drop_text n s

-- `lower` is `str.lower`, `check_password` the test of the password's hash, `sha256` the digest of a
-- token; the token is the one that `secrets.token_urlsafe(40)` draws.
module _ (lower : String → String) (check_password : User → String → Bool)
    (sha256 : String → String) where
  abbrev pub new_session : User → String → Time → UserSession
  new_session user token now = record {
    user = some user;
    key_hash = sha256 token;
    kind = "cli";
    last_seen_at = some now;
    expires_at = some (now +ℤ thirty_days);
    revoked_at = none;
    revoked_reason = none;
  }

  abbrev pub has_email : String → User → Bool
  has_email email user = user.email == email

  -- `cli_login(ctx)`: the token, where it is not refused.
  unfoldable pub cli_login :
      List User → (email password token : String) → Time → Accounts → Option String × Accounts
  cli_login users given password token now a =
      let email = lower (strip given) in
      elim (find (has_email email) users) [
        | none ↦ refuse email "unknown_user" a
        | some user ↦
            if not user.is_active
            then refuse email "disabled" a
            else if not (check_password user password)
            then refuse email "bad_password" a
            else (
              some token,
              logged email true "ok"
                  (record a { sessions = a.sessions ++ new_session user token now ∷ [] }),
            )
      ]

  -- `header[7:].strip()`
  abbrev pub token_behind : Option String → String
  token_behind header = strip (drop_text 7 (or_default header ""))

  abbrev pub signed_out : Time → UserSession → UserSession
  signed_out now session = record session {
    revoked_at = some now;
    revoked_reason = some "signed out from the CLI";
  }

  -- `cli_logout(ctx)`
  unfoldable pub cli_logout : Option String → Time → Accounts → Accounts
  cli_logout header now a = record a {
    sessions = update (sha256 (token_behind header)) (signed_out now) a.sessions;
  }
