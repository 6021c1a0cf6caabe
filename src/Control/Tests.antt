-- ===== src/Control/Tests.antt =====
-- An operator who signs in, works and signs out, and a topic that is guarded.
use beacn.Base.{ℕ, ◌+◌, ◌≡◌, refl, Bool, true, false, String, List, [], ◌∷◌, none, some}
use beacn.Base.Int.{pos, ◌+ℤ◌}
use beacn.Base.Strip.{strip}
use beacn.Errors.{Result, ok}
use beacn.Auth.Tests.{hash}
use beacn.Api.{Response, reply}
use beacn.Control.{User, UserSession, unauthenticated, control_actor, control_endpoint}
use beacn.Control.Access.{Enters, control_endpoint-Enters}
use beacn.Control.Login.{Accounts, cli_login, cli_logout}
use beacn.Control.Login.Sessions.{LoggedIn, from_cli, cli_login-control_actor}
use beacn.Auth.Issue.Opening.{bearing}

abbrev eve : User
eve = record {
  id = 1;
  email = "eve@acme.io";
  is_authenticated = true;
  is_superuser = false;
  is_active = true;
  permissions = "topics.read" ∷ [];
}

abbrev empty_accounts : Accounts
empty_accounts = record { sessions = []; login_events = [] }

-- Stand-ins for `str.lower` and the test of the password.
abbrev same : String → String
same s = s

abbrev always : User → String → Bool
always user password = true

abbrev session : UserSession
session = record {
  user = some eve;
  key_hash = "#t0ken";
  kind = "cli";
  last_seen_at = some (pos 5);
  expires_at = some (pos 2592000000005);
  revoked_at = none;
  revoked_reason = none;
}

abbrev signed_in : Accounts
signed_in = record {
  sessions = session ∷ [];
  login_events = record { email = "eve@acme.io"; is_successful = true; reason = "ok" } ∷ [];
}

run : Unit {0}
unfolding cli_login strip ◌+ℤ◌
run = tt

login_run :
    cli_login same always hash (eve ∷ []) " eve@acme.io" "pw" "t0ken" (pos 5) empty_accounts
    ≡ (some "t0ken", signed_in)
unfolding run
login_run = refl

bare : strip "t0ken" ≡ "t0ken"
unfolding run
bare = refl

cli_login-control_actor_example :
    (user : User) × (LoggedIn same always hash
        (eve ∷ [])
        " eve@acme.io"
        "pw"
        "t0ken"
        (pos 5)
        empty_accounts
        signed_in
        user
      × ((control_actor hash (from_cli "POST" "t0ken") signed_in.sessions (pos 9)).0 ≡ ok user)
      × ((control_actor hash
            (from_cli "POST" "t0ken")
            (cli_logout same always hash (bearing "t0ken") (pos 10) signed_in).sessions
            (pos 11)).0
          ≡ unauthenticated))
unfolding ◌+ℤ◌
cli_login-control_actor_example =
    cli_login-control_actor same always hash (eve ∷ []) " eve@acme.io" "pw" "t0ken" "t0ken" "POST"
      (pos 5) (pos 9) (pos 10) (pos 11) empty_accounts signed_in login_run refl bare refl refl

abbrev rename : User → List UserSession × ℕ → Result (Response ℕ) × (List UserSession × ℕ)
rename user (sessions, n) = (ok (reply 200 n), (sessions, n + 1))

control_endpoint-Enters_example :
    Enters hash ("topics.write" ∷ []) rename (from_cli "POST" "t0ken") (pos 9) (session ∷ []) 3 (
      control_endpoint hash
        ("topics.write" ∷ [])
        rename
        (from_cli "POST" "t0ken")
        (pos 9)
        (session ∷ [], 3))
control_endpoint-Enters_example =
    control_endpoint-Enters hash ("topics.write" ∷ []) rename (from_cli "POST" "t0ken") (pos 9)
      (session ∷ []) 3
