-- ===== src/Auth/Tokens.antt =====
-- The realtime tokens of app/auth.py: `mint_realtime_token` and `grant_from_realtime_token`.
pub mod Grants
use Prim.Native.String
use beacn.Base.{
  ℕ, ◌+◌, ◌<◌, ◌≡◌, refl, ap, ◌∙◌, sym, Bool, true, false, not, String, List, [], ◌∷◌, Option, none,
  some, is_empty, ◌==◌, Bool-cases, inl, inr, if◌then◌else◌, or_default,
}
use beacn.Base.Int.{ℤ, pos}
use beacn.Base.Json.{
  Json, null, bool, num, str, arr, obj, Items, nil, cons, Fields, end, field, get, get?,
  value_or_null, is_true,
}
use beacn.Errors.{Result, ok, err, ◌>>=◌, raise, authentication}
use beacn.Topics.{Grant}

-- `jwt` of sillo.helpers: `encode claims key`, and `decode token key audience issuer now`, none where
-- it raises. A token is opaque.
pub record Jwt (Token : Type 0) : Type 0 where
  pub encode : Fields → String → Token
  pub decode : Token → String → String → String → ℕ → Option Fields

abbrev pub issuer : String
issuer = "beacn"

abbrev pub audience : String
audience = "beacn:realtime"

abbrev pub items_of : List String → Items
items_of [] = nil
items_of (s ∷ ss) = cons (str s) (items_of ss)

-- The texts of a list.
abbrev pub texts_of : Items → List String
texts_of nil = []
texts_of (cons (str s) vs) = s ∷ texts_of vs
texts_of (cons v vs) = texts_of vs

-- `if value: claims[key] = value`
abbrev pub with_text : String → Option String → Fields → Fields
with_text key none claims = claims
with_text key (some s) claims = if is_empty s then claims else field key (str s) claims

abbrev pub with_texts : String → List String → Fields → Fields
with_texts key [] claims = claims
with_texts key (s ∷ ss) claims = field key (arr (items_of (s ∷ ss))) claims

pub record Request : Type 0 where
  pub environment : String
  pub user_id : Option String
  pub organization_id : Option String
  pub project_ids : List String
  pub scopes : List String
  pub topic_patterns : List String
  pub operator : Bool
  pub producer_id : Option String
  pub ttl_seconds : Option ℕ

abbrev pub ttl_of : ℕ → Option ℕ → ℕ
ttl_of default none = default
ttl_of default (some ℕ.zero) = default
ttl_of default (some (ℕ.suc n)) = ℕ.suc n

-- The claims of `mint_realtime_token`, the latest entry first.
unfoldable pub claims_of : Request → ℕ → ℕ → Fields
claims_of r ttl now = with_text "pid" r.producer_id (
    with_texts "topics" r.topic_patterns (
      with_texts "scopes" r.scopes (
        with_texts "projects" r.project_ids (
          with_text "org" r.organization_id (
            with_text "uid" r.user_id (
              field "operator" (bool r.operator) (
                field "env" (str r.environment) (
                  field "exp" (num (pos (now + ttl)) 0) (
                    field "iat" (num (pos now) 0)
                      (field "aud" (str audience) (field "iss" (str issuer) end)))))))))))

abbrev pub text_or_none : Json → Option String
text_or_none (str s) = some s
text_or_none v = none

abbrev pub text_or : String → Option Json → String
text_or default none = default
text_or default (some (str s)) = s
text_or default (some v) = default

-- `claims.get(key) or ()`, of a list of texts.
abbrev pub list_or_none : Json → List String
list_or_none (arr vs) = texts_of vs
list_or_none v = []

-- The `Grant` of the claims. A token that this service signed holds texts where texts are read.
unfoldable pub grant_of : Fields → Grant
grant_of claims = record {
  environment = text_or "development" (get? claims "env");
  user_id = text_or_none (get claims "uid");
  organization_id = text_or_none (get claims "org");
  project_ids = list_or_none (get claims "projects");
  scopes = list_or_none (get claims "scopes");
  topic_patterns = list_or_none (get claims "topics");
  operator = is_true (get claims "operator");
  producer_id = text_or_none (get claims "pid");
}

-- `default_ttl` is `config.realtime_token_ttl_seconds`, and `key` is `config.secret_key`.
module _ {Token : Type 0} (jwt : Jwt Token) (default_ttl : ℕ) (key : String) where
  unfoldable pub mint_realtime_token : Request → ℕ → Token × ℕ
  mint_realtime_token r now =
      let ttl = ttl_of default_ttl r.ttl_seconds in (jwt.encode (claims_of r ttl now) key, ttl)

  abbrev pub grant_or_raise : Option Fields → Result Grant
  grant_or_raise none = raise authentication "invalid realtime token"
  grant_or_raise (some claims) = ok (grant_of claims)

  unfoldable pub grant_from_realtime_token : Token → ℕ → Result Grant
  grant_from_realtime_token token now = grant_or_raise (jwt.decode token key audience issuer now)

-- `value or None`
abbrev pub text_if : Option String → Option String
text_if none = none
text_if (some s) = if is_empty s then none else some s
