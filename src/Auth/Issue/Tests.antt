-- ===== src/Auth/Issue/Tests.antt =====
-- A key that is issued and rotated.
use beacn.Base.{◌≡◌, refl, [], ◌∷◌, none, some}
use beacn.Base.Int.{pos}
use beacn.Base.Strip.{strip}
use beacn.Errors.{ok}
use beacn.Auth.{ApiKey, words, bearer, key_prefix, resolve_api_key}
use beacn.Auth.Tests.{hash, orders_api, orders_key}
use beacn.Auth.Issue.{
  in_text, in_list, normalise_scopes, fresh_prefix, issue, revoke, revoked, rotate,
}
use beacn.Auth.Issue.Opening.{bearing}
use beacn.Auth.Issue.Revoking.{rotate-resolve_api_key}

run : Unit {0}
unfolding normalise_scopes fresh_prefix issue revoke revoked rotate words strip bearer key_prefix
run = tt

scopes_run :
    (normalise_scopes (in_text "events:read,*  nothing events:read") ≡ "events:read *")
    × (normalise_scopes (in_list (" tasks:read " ∷ "" ∷ [])) ≡ "tasks:read")
    × (normalise_scopes (in_text "") ≡ "events:publish")
unfolding run
scopes_run = (refl, refl, refl)

abbrev new_key : ApiKey
new_key = record orders_key {
  id = "key_2";
  prefix = "cd34";
  secret_hash = "#bk_cd34_n3w";
  request_count = 0;
}

issue_run :
    issue hash
      ("ab12" ∷ "cd34" ∷ [])
      "key_2"
      "n3w"
      orders_api
      (in_text "events:read,*")
      (some (pos 100))
      (orders_key ∷ [])
    ≡ some (orders_key ∷ new_key ∷ [], (new_key, "bk_cd34_n3w"))
unfolding run
issue_run = refl

bare : strip "bk_cd34_n3w" ≡ "bk_cd34_n3w"
unfolding run
bare = refl

abbrev old_key : ApiKey
old_key = record orders_key {
  status = "revoked";
  revoked_at = some (pos 5);
  revoked_reason = some "rotated to cd34";
}

rotate_run :
    rotate hash ("cd34" ∷ []) "key_2" "n3w" orders_key orders_api (pos 5) (orders_key ∷ [])
    ≡ some (old_key ∷ new_key ∷ [], (new_key, "bk_cd34_n3w"))
unfolding run
rotate_run = refl

sent : bearer (some "Bearer bk_ab12_s3cret") ≡ ok "bk_ab12_s3cret"
unfolding run
sent = refl

form : key_prefix "bk_ab12_s3cret" ≡ some "ab12"
unfolding run
form = refl

rotate-resolve_api_key_example :
    (¬ (
      resolve_api_key hash (some "Bearer bk_ab12_s3cret") none (old_key ∷ new_key ∷ []) (pos 9)
      ≡ ok (orders_key, orders_api)))
    × ((resolve_api_key hash (bearing "bk_cd34_n3w") none (old_key ∷ new_key ∷ []) (pos 9)
          ≡ ok (record new_key { request_count = 1; last_used_at = some (pos 9) }, orders_api))
        × (new_key.scopes ≡ normalise_scopes (in_text orders_key.scopes)))
rotate-resolve_api_key_example =
    rotate-resolve_api_key hash ("cd34" ∷ []) "key_2" "n3w" orders_key orders_api (pos 5) (pos 9)
      (orders_key ∷ []) (old_key ∷ new_key ∷ [], (new_key, "bk_cd34_n3w"))
      (some "Bearer bk_ab12_s3cret") none "bk_ab12_s3cret" (orders_key, orders_api) rotate_run refl
      refl refl bare refl refl sent form
