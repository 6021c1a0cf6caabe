-- ===== src/Cli.antt =====
-- cli/client.py: the file of credentials of the command line, and what `ApiClient` makes of it and of
-- an answer. `dumps` and `loads` are of json, `loads` none where it raises ValueError; a text of None
-- stands for a file, or a variable of the environment, that is not there; a file that is there can be read.
use Prim.Native.String
use beacn.Base.{
  ◌≡◌, refl, ℕ, Bool, true, false, ◌&&◌, not, String, Option, none, some, or_default, is_empty, leb,
  if◌then◌else◌,
}
use beacn.Base.Json.{Json, null, str, obj, Fields, end, field, get, get?, is_true, or_else}
use beacn.Errors.{
  Kind, status, error, validation, authentication, authorization, not_found, conflict,
  payload_too_large, rate_limited, dependency, BeacnError,
}
use beacn.Sdk.Config.{base_url}
use beacn.Sdk.Mirror.{error_body}

-- What a call ends in: a value, a `CliError` with its message, or another exception.
pub data Outcome (A : Type 0) : Type 0 where
  value : A → Outcome A
  cli_error : Json → Outcome A
  crashed : Outcome A

-- What `save_token` writes, before `json.dumps`.
unfoldable pub credentials : String → String → String → Fields
credentials url token email =
    field "url" (str (base_url url)) (field "token" (str token) (field "email" (str email) end))

-- The attributes of `ApiClient`.
pub record Client : Type 0 where
  pub base_url : Json
  pub token : Json

-- The variables BEACN_URL and BEACN_TOKEN.
pub record Environment : Type 0 where
  pub url : Option String
  pub token : Option String

-- `clear_token`: whether there was a file, and no file.
unfoldable pub clear_token : Option String → Bool × Option String
clear_token none = (false, none)
clear_token (some text) = (true, none)

-- `dict.get(key, default)`
abbrev get_or : Fields → String → Json → Json
get_or fs key v = or_default (get? fs key) v

abbrev login_first : Json
login_first = str "Authentication required.\nRun: beacn login"

abbrev own_url : Environment → Json
own_url env = str (base_url (or_default env.url "http://localhost:8000"))

-- The token of the environment, unless it is empty.
abbrev token_over : Environment → Json → Json
token_over env token =
    if is_empty (or_default env.token "") then token else str (or_default env.token "")

-- `Login.handle`: the address that it asks and saves; an empty option or variable counts as none.
unfoldable pub login_url : String → Environment → String
login_url option env = base_url (
    if is_empty option
    then if is_empty (or_default env.url "") then "http://localhost:8000" else or_default env.url ""
    else option)

-- `_headers`: the header Authorization, if there is a token; `text` is `str`.
unfoldable pub authorization_of : (Json → String) → Client → Option String
authorization_of text c =
    if is_true c.token then some (String.◌++◌ "Bearer " (text c.token)) else none

unfoldable pub client_of : Bool → Environment → Option Fields → Outcome Client
client_of require_auth env none =
    let token = token_over env null in
    if require_auth && not (is_true token)
    then cli_error login_first
    else value (record { base_url = own_url env; token = token })
client_of require_auth env (some creds) =
    let token = token_over env (get creds "token") in
    if require_auth && not (is_true token)
    then cli_error login_first
    else value (record { base_url = get_or creds "url" (own_url env); token = token })

module _ (dumps : Fields → String) (loads : String → Option Json) where
  -- `save_token`: the text of the file.
  unfoldable pub save_token : String → String → String → String
  save_token url token email = dumps (credentials url token email)

  -- `data if data.get("token") else None`, of a dict `data`; anything else has no `get`.
  abbrev loaded : Option Json → Outcome (Option Fields)
  loaded none = value none
  loaded (some (obj creds)) = value (if is_true (get creds "token") then some creds else none)
  loaded (some v) = crashed

  unfoldable pub load_token : Option String → Outcome (Option Fields)
  load_token none = value none
  load_token (some text) = loaded (loads text)

  abbrev client_with : Bool → Environment → Outcome (Option Fields) → Outcome Client
  client_with require_auth env (value creds) = client_of require_auth env creds
  client_with require_auth env (cli_error message) = cli_error message
  client_with require_auth env crashed = crashed

  -- `ApiClient(require_auth=require_auth)`
  unfoldable pub api_client : Bool → Environment → Option String → Outcome Client
  api_client require_auth env file = client_with require_auth env (load_token file)

  -- After a login without a token in the environment, a client has the token and the address of the
  -- login, whatever BEACN_URL says.
  api_client-save_token :
      (read_back : (fs : Fields) → loads (dumps fs) ≡ some (obj fs)) (require_auth : Bool)
      (url : Option String) (login token email : String)
      → is_empty token ≡ false
      → api_client require_auth
          (record { url = url; token = none })
          (some (save_token login token email))
        ≡ value (record { base_url = str (base_url login); token = str token })
  unfolding api_client load_token save_token client_of credentials
  api_client-save_token read_back true url login token email given =
      rw (read_back (credentials login token email), given, given) refl
  api_client-save_token read_back false url login token email given =
      rw (read_back (credentials login token email), given) refl

  -- A token in the environment takes the place of the saved one, and the address stays that of the
  -- login, whatever BEACN_URL says.
  api_client-env_token :
      (read_back : (fs : Fields) → loads (dumps fs) ≡ some (obj fs)) (url : Option String)
      (login saved token email : String)
      → is_empty saved ≡ false
      → is_empty token ≡ false
      → api_client true
          (record { url = url; token = some token })
          (some (save_token login saved email))
        ≡ value (record { base_url = str (base_url login); token = str token })
  unfolding api_client load_token save_token client_of credentials
  api_client-env_token read_back url login saved token email old new =
      rw (read_back (credentials login saved email), old, new, new) refl

  -- Once the file is cleared, a client that needs to be signed in, and has no token in the
  -- environment, asks to log in.
  api_client-clear_token :
      (url : Option String) (file : Option String)
      → api_client true (record { url = url; token = none }) ((clear_token file).1)
        ≡ cli_error login_first
  unfolding api_client load_token client_of clear_token
  api_client-clear_token url none = refl
  api_client-clear_token url (some text) = refl

-- The message of an answer of status 400 or more: `err.get("message") or f"HTTP {…}: {…}"`. `err` is
-- the member "error" of the body, or an empty dict where the body is no JSON.
abbrev message_of : String → Json → Outcome Json
message_of otherwise (obj err) = cli_error (or_else (get err "message") (str otherwise))
message_of otherwise v = crashed

abbrev refused : String → Option Json → Outcome Json
refused otherwise none = cli_error (str otherwise)
refused otherwise (some (obj body)) = message_of otherwise (get_or body "error" (obj end))
refused otherwise (some v) = crashed

-- What a body answers with, where its content type is JSON: `resp.json()`, which may raise.
abbrev read_body : Bool → String → Option Json → Outcome Json
read_body false text body = value (str text)
read_body true text none = crashed
read_body true text (some v) = value v

-- `ApiClient.request`, from the answer on: its status, its text, whether it is said to be JSON, the JSON
-- that its text is, and the message without one.
unfoldable pub response_of : ℕ → String → Bool → Option Json → String → Outcome Json
response_of status text is_json body otherwise =
    if leb 400 status then refused otherwise body else read_body is_json text body

-- An error of the service, of any class, reaches the operator with its own message.
response_of-error_body :
    (e : BeacnError) (details : Option Json) (text otherwise : String) (is_json : Bool)
    → is_empty e.message ≡ false
    → response_of
        (status e.kind)
        text
        is_json
        (some (error_body e.error_code e.message details))
        otherwise
      ≡ cli_error (str e.message)
unfolding response_of error_body
response_of-error_body e details text otherwise is_json named = go e.kind
  where
    go :
        (kind : Kind)
        → response_of
            (status kind)
            text
            is_json
            (some (error_body e.error_code e.message details))
            otherwise
          ≡ cli_error (str e.message)
    go error = rw named refl
    go validation = rw named refl
    go authentication = rw named refl
    go authorization = rw named refl
    go not_found = rw named refl
    go conflict = rw named refl
    go payload_too_large = rw named refl
    go rate_limited = rw named refl
    go dependency = rw named refl
