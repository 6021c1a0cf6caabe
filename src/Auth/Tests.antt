-- ===== src/Auth/Tests.antt =====
-- A key and a token that open their planes.
use Prim.Native.String
use beacn.Base.{
  ◌+◌, ◌<◌, ◌≡◌, refl, arith, eq_refl, Bool, true, false, String, [], ◌∷◌, Option, none, some, ◌==◌,
}
use beacn.Base.Int.{pos}
use beacn.Base.Json.{Fields}
use beacn.Base.Strip.{strip}
use beacn.Errors.{ok}
use beacn.Topics.{Grant}
use beacn.Auth.{
  ApiKey, Producer, words, is_live, bearer, key_prefix, resolve_api_key, require_scope,
  grant_from_api_key_token,
}
use beacn.Auth.Keys.{Admitted, resolve_api_key-Admitted}
use beacn.Auth.Tokens.{Jwt, Request, mint_realtime_token, grant_from_realtime_token}
use beacn.Auth.Tokens.Grants.{Decodes, grant-mint}

-- A stand-in for SHA-256.
abbrev pub hash : String → String
hash token = String.◌++◌ "#" token

abbrev pub orders_api : Producer
orders_api = record {
  id = "prd_1";
  name = "Orders API";
  slug = "orders-api";
  environment = "production";
  status = "active";
}

abbrev pub orders_key : ApiKey
orders_key = record {
  id = "key_1";
  producer = some orders_api;
  prefix = "ab12";
  secret_hash = "#bk_ab12_s3cret";
  scopes = "events:read *";
  status = "active";
  revoked_at = none;
  revoked_reason = none;
  expires_at = some (pos 100);
  request_count = 4;
  last_used_at = none;
  last_used_ip = none;
}

abbrev pub used : ApiKey
used = record orders_key { request_count = 5; last_used_at = some (pos 9) }

run : Unit {0}
unfolding resolve_api_key bearer key_prefix is_live strip words grant_from_api_key_token
    require_scope
run = tt

pub resolved :
    resolve_api_key hash (some "bEARER  bk_ab12_s3cret ") none (orders_key ∷ []) (pos 9)
    ≡ ok (used, orders_api)
unfolding run
resolved = refl

resolve_api_key-Admitted_example :
    Admitted hash (some "bEARER  bk_ab12_s3cret ") (orders_key ∷ []) (pos 9) orders_api
resolve_api_key-Admitted_example =
    resolve_api_key-Admitted hash (some "bEARER  bk_ab12_s3cret ") none (orders_key ∷ []) (pos 9)
      used orders_api resolved

abbrev granted : Grant
granted = record {
  environment = "production";
  user_id = none;
  organization_id = none;
  project_ids = [];
  scopes = "events:read" ∷ "*" ∷ [];
  topic_patterns = [];
  operator = false;
  producer_id = some "prd_1";
}

granted_run : grant_from_api_key_token hash "bk_ab12_s3cret" (orders_key ∷ []) (pos 9) ≡ ok granted
unfolding run
granted_run = refl

-- A stand-in for the token library: a token is its claims and the key that signed them.
abbrev claims_if : Bool → Fields → Option Fields
claims_if true claims = some claims
claims_if false claims = none

abbrev pub plain : Jwt (Fields × String)
plain = record {
  encode = λ claims key. (claims, key);
  decode = λ token key wanted from now. claims_if (token.1 == key) token.0;
}

pub plain-Decodes : Decodes plain
plain-Decodes claims key wanted from expires now h1 h2 h3 h4 = rw (eq_refl key) refl

abbrev for_user : Request
for_user = record {
  environment = "production";
  user_id = some "u7";
  organization_id = some "";
  project_ids = "p1" ∷ [];
  scopes = [];
  topic_patterns = "orders.*" ∷ [];
  operator = false;
  producer_id = some "prd_1";
  ttl_seconds = none;
}

alive : 1500 < 1000 + (mint_realtime_token plain 900 "key" for_user 1000).1
unfolding mint_realtime_token
alive = omega arith

grant-mint_example :
    grant_from_realtime_token plain 900 "key"
      (mint_realtime_token plain 900 "key" for_user 1000).0
      1500
    ≡ ok (record {
      environment = "production";
      user_id = some "u7";
      organization_id = none;
      project_ids = "p1" ∷ [];
      scopes = [];
      topic_patterns = "orders.*" ∷ [];
      operator = false;
      producer_id = some "prd_1";
    })
grant-mint_example = grant-mint plain 900 "key" for_user 1000 1500 plain-Decodes alive
