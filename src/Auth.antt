-- ===== src/Auth.antt =====
-- app/auth.py and the API keys of database/models/producer.py: who a request comes from.
pub mod Keys
pub mod Tokens
pub mod Issue
pub mod Tests
use Prim.Native.String.{[], ◌∷◌}
use Prim.Native.String
use beacn.Base.{
  ℕ, suc, ◌+◌, leb, eqb, Bool, true, false, ◌&&◌, ◌||◌, not, String, code, List, Option, none, some,
  or_default, is_empty, ◌==◌, elem, find, if◌then◌else◌,
}
use beacn.Base.Int.{ℤ, pos, ltb_ℤ}
use beacn.Base.Strip.{strip, is_space}
use beacn.Errors.{Result, ok, err, ◌>>=◌, ◌>>◌, raise, authentication, authorization}
use beacn.Events.Model.{Time}
use beacn.Topics.{Grant}

pub record Producer : Type 0 where
  pub id : String
  pub name : String
  pub slug : String
  pub environment : String
  pub status : String

-- A row of `api_keys`, with the producer that it belongs to.
pub record ApiKey : Type 0 where
  pub id : String
  pub producer : Option Producer
  pub prefix : String
  pub secret_hash : String
  pub scopes : String
  pub status : String
  pub revoked_at : Option Time
  pub revoked_reason : Option String
  pub expires_at : Option Time
  pub request_count : ℕ
  pub last_used_at : Option Time
  pub last_used_ip : Option String

abbrev pub push : String → List String → List String
push w ws = if is_empty w then ws else List.◌∷◌ w ws

-- The word that a text begins with, and the words behind it.
abbrev pub first_word : String → String × List String
first_word [] = ("", List.[])
first_word (c ∷ s) =
    let rest = first_word s in
    if is_space (code c) then ("", push rest.0 rest.1) else (c ∷ rest.0, rest.1)

-- `s.split()`
unfoldable pub words : String → List String
words s = push (first_word s).0 (first_word s).1

-- `key.scope_list`
abbrev pub scope_list : ApiKey → List String
scope_list key = words key.scopes

-- `key.has_scope(scope)`
abbrev pub key_has_scope : ApiKey → String → Bool
key_has_scope key scope = elem scope (scope_list key) || elem "*" (scope_list key)

abbrev pub has_not_passed : Option Time → Time → Bool
has_not_passed none now = true
has_not_passed (some t) now = ltb_ℤ now t

-- `key.is_live`, at the time `now`.
unfoldable pub is_live : ApiKey → Time → Bool
is_live key now = key.status == "active" && has_not_passed key.expires_at now

-- `c.lower() == l`, for a small letter l of ASCII.
abbrev is_letter : ℕ → ℕ → Bool
is_letter c l = eqb c l || eqb (c + 32) l

-- What stands behind `prefix`, whatever the case of the text.
abbrev behind_prefix : String → String → Option String
behind_prefix [] s = some s
behind_prefix (l ∷ prefix) [] = none
behind_prefix (l ∷ prefix) (c ∷ s) =
    let rest = behind_prefix prefix s in if is_letter (code c) (code l) then rest else none

abbrev token_or_raise : Option String → Result String
token_or_raise none = raise authentication "missing bearer token"
token_or_raise (some s) =
    if is_empty (strip s) then raise authentication "empty bearer token" else ok (strip s)

-- The scheme and its space.
abbrev pub is_scheme : String → Option String
is_scheme s = elim (behind_prefix "bearer" s) [ none ↦ none | some rest ↦ space_then rest ]
  where
    space_then : String → Option String
    space_then [] = none
    space_then (c ∷ s) = if eqb (code c) b' ' then some s else none

-- `_bearer(header)`
unfoldable pub bearer : Option String → Result String
bearer header = token_or_raise (is_scheme (or_default header ""))

-- The text before the first "_", if there is one.
abbrev pub before_underscore : String → Option String
before_underscore [] = none
before_underscore (c ∷ s) =
    let rest = before_underscore s in
    if eqb (code c) b'_' then some "" else elim rest [ none ↦ none | some w ↦ some (c ∷ w) ]

abbrev pub behind_bk : String → Option String
behind_bk (b ∷ k ∷ u ∷ s) =
    if eqb (code b) b'b' && eqb (code k) b'k' && eqb (code u) b'_' then some s else none
behind_bk _ = none

-- The prefix of a token "bk_<prefix>_<secret>", none where it has another form.
unfoldable pub key_prefix : String → Option String
key_prefix token = elim (behind_bk token) [ none ↦ none | some s ↦ before_underscore s ]

abbrev pub has_prefix : String → ApiKey → Bool
has_prefix prefix key = key.prefix == prefix

-- `require_scope(key, scope)`
unfoldable pub require_scope : ApiKey → String → Result ApiKey
require_scope key scope =
    if key_has_scope key scope then ok key else raise authorization "API key is missing the scope"

-- `hash_secret` is SHA-256.
module _ (hash_secret : String → String) where
  abbrev pub known_key : String → Option ApiKey → Result ApiKey
  known_key token none = raise authentication "unknown or invalid API key"
  known_key token (some key) =
      if key.secret_hash == hash_secret token
      then ok key
      else raise authentication "unknown or invalid API key"

  abbrev pub active_producer : Option Producer → Result Producer
  active_producer none = raise authentication "producer is disabled"
  active_producer (some producer) =
      if producer.status == "active"
      then ok producer
      else raise authentication "producer is disabled"

  abbrev pub prefix_or_raise : Option String → Result String
  prefix_or_raise none = raise authentication "malformed API key"
  prefix_or_raise (some prefix) = ok prefix

  -- `resolve_api_key(authorization, ip=ip)`; the key is returned with its counters, which are saved
  -- if the database takes them.
  unfoldable pub resolve_api_key :
      Option String → Option String → List ApiKey → Time → Result (ApiKey × Producer)
  resolve_api_key header ip keys now = do
    token ← bearer header
    prefix ← prefix_or_raise (key_prefix token)
    key ← known_key token (find (has_prefix prefix) keys)
    live ← if is_live key now then ok key else raise authentication "API key is revoked or expired"
    producer ← active_producer live.producer
    ok (
      record live {
        request_count = live.request_count + 1;
        last_used_at = some now;
        last_used_ip = ip;
      },
      producer,
    )

  -- `grant_from_api_key_token(token)`
  unfoldable pub grant_from_api_key_token : String → List ApiKey → Time → Result Grant
  grant_from_api_key_token token keys now = do
    found ← resolve_api_key (some (String.◌++◌ "Bearer " token)) none keys now
    key ← require_scope found.0 "events:read"
    ok (record {
      environment = found.1.environment;
      user_id = none;
      organization_id = none;
      project_ids = List.[];
      scopes = scope_list key;
      topic_patterns = List.[];
      operator = elem "system:read" (scope_list key);
      producer_id = some found.1.id;
    })
