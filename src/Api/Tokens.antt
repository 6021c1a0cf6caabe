-- ===== src/Api/Tokens.antt =====
-- `issue_realtime_token` of routes/api/v1.py, and how far the token of a key reaches.
pub mod Users
use beacn.Base.{
  ℕ, ◌+◌, ◌<◌, ◌≡◌, ◌≢◌, refl, sym, ap, subst, ◌∙◌, and-eq-true, Bool, true, String, List, [], ◌∷◌,
  Option, some, keep, ◌==◌,
}
use beacn.Errors.{Failure, beacn_error, uncaught, Result, ok, err}
use beacn.Events.Model.{Time}
use beacn.Topics.{Grant}
use beacn.Auth.{ApiKey, Producer, scope_list, key_has_scope}
use beacn.Auth.Tokens.{text_if, Jwt, Request, mint_realtime_token, grant_from_realtime_token}
use beacn.Auth.Tokens.Grants.{Decodes, grant-mint}
use beacn.Auth.Keys.{Admitted, used_by}
use beacn.Api.{
  HttpRequest, Response, Answer, answered, server_error, error_response, reply, answer_of,
  producer_endpoint,
}
use beacn.Api.Endpoint.{Ends, refused, lacks_scope, let_in, forbidden, producer_endpoint-Ends}

-- The body of the request; what it leaves out is none or empty.
pub record TokenBody : Type 0 where
  pub user_id : Option String
  pub organization_id : Option String
  pub project_ids : List String
  pub topic_patterns : List String
  pub ttl_seconds : Option ℕ

-- What is minted for a key and a body.
unfoldable pub token_request : ApiKey → Producer → TokenBody → Request
token_request key producer body = record {
  environment = producer.environment;
  user_id = body.user_id;
  organization_id = body.organization_id;
  project_ids = body.project_ids;
  scopes = keep (λ s. s == "system:read") (scope_list key);
  topic_patterns = body.topic_patterns;
  operator = key_has_scope key "system:read";
  producer_id = some producer.id;
  ttl_seconds = body.ttl_seconds;
}

pub record Issued (Token : Type 0) : Type 0 where
  pub token : Token
  pub expires_in : ℕ
  pub environment : String

module _ {Token : Type 0} (jwt : Jwt Token) (default_ttl : ℕ) (secret_key : String) where
  -- What is issued to a producer at the second `now`.
  unfoldable pub issue_for : ApiKey → Producer → TokenBody → ℕ → Issued Token
  issue_for key producer body now =
      let (token, ttl) =
        mint_realtime_token jwt default_ttl secret_key (token_request key producer body) now in
      record { token = token; expires_in = ttl; environment = producer.environment }

  -- `issue_realtime_token(ctx)`, behind its scope: its clock reads `at` while the key is looked up, and
  -- the second `now` while the token is minted; what it leaves are the keys.
  unfoldable pub issue_realtime_token :
      (hash_secret : String → String)
      → HttpRequest
      → (saves : Bool) → List ApiKey
      → TokenBody
      → (at : Time) → (now : ℕ) → (Answer (Issued Token) × Unit {0}) × List ApiKey
  issue_realtime_token hash_secret request saves keys body at now =
      producer_endpoint hash_secret ("events:read" ∷ [])
        (λ key producer none_left. (ok (reply 201 (issue_for key producer body now)), none_left))
        request saves keys at tt

  -- A token that was issued: the key that it was issued to, which may read events, and the grant that
  -- the token stands for.
  pub record Stands (hash_secret : String → String) (request : HttpRequest) (keys : List ApiKey)
      (at : Time) (later : ℕ) (body : TokenBody) (issued : Issued Token) : Type 0 where
    pub producer : Producer
    pub grant : Grant
    pub admitted : Admitted hash_secret request.authorization keys at producer
    pub may_read : key_has_scope admitted.row "events:read" ≡ true
    pub names_environment : issued.environment ≡ producer.environment
    pub decoded : grant_from_realtime_token jwt default_ttl secret_key issued.token later ≡ ok grant
    pub is_home : grant.environment ≡ producer.environment
    pub has_user : grant.user_id ≡ text_if body.user_id
    pub has_scopes : grant.scopes ≡ keep (λ s. s == "system:read") (scope_list admitted.row)
    pub has_patterns : grant.topic_patterns ≡ body.topic_patterns
    pub is_operator : grant.operator ≡ key_has_scope admitted.row "system:read"

  answer-injective :
      (a b : Issued Token)
      → ◌≡◌ {A = Answer (Issued Token)} (answered (reply 201 a)) (answered (reply 201 b))
      → a ≡ b
  answer-injective a b h = cc

  -- What the route answers with a token, it answers to a key that may read events, and the token stands
  -- for the environment of its producer and the patterns of the body for as long as the answer says.
  pub issue_realtime_token-Stands :
      (hash_secret : String → String) (request : HttpRequest) (saves : Bool) (keys : List ApiKey)
      (body : TokenBody) (at : Time) (now later : ℕ) (issued : Issued Token)
      → Decodes jwt
      → (issue_realtime_token hash_secret request saves keys body at now).0.0
        ≡ answered (reply 201 issued)
      → later < now + issued.expires_in
      → Stands hash_secret request keys at later body issued
  unfolding issue_realtime_token issue_for token_request
  issue_realtime_token-Stands hash_secret request saves keys body at now later issued decodes h
        alive =
      go (producer_endpoint-Ends hash_secret ("events:read" ∷ []) handler request saves keys at tt)
    where
      handler : ApiKey → Producer → Unit {0} → Result (Response (Issued Token)) × Unit {0}
      handler key producer none_left = (ok (reply 201 (issue_for key producer body now)), none_left)

      refusal :
          (e : Failure)
          → ◌≢◌ {A = Answer (Issued Token)}
              (answer_of {S = Unit {0}} (err e, tt)).0
              (answered (reply 201 issued))
      refusal (beacn_error e) k = unfold error_response in (absurd (cc))
      refusal uncaught k = absurd (cc)

      go :
          Ends hash_secret
            ("events:read" ∷ [])
            handler
            request
            saves
            keys
            at
            tt
            (producer_endpoint hash_secret ("events:read" ∷ []) handler request saves keys at tt)
          → Stands hash_secret request keys at later body issued
      go (refused e resolved same) = absurd (refusal e (sym (ap (λ r. r.0.0) same) ∙ h))
      go (lacks_scope producer who lacks same) =
          absurd (refusal forbidden (sym (ap (λ r. r.0.0) same) ∙ h))
      go (let_in producer who scopes same) =
          let key = used_by hash_secret request.ip at who.row in
          let told : issue_for key producer body now ≡ issued =
            answer-injective (issue_for key producer body now) issued
              (sym (ap (λ r. r.0.0) same) ∙ h) in
          subst (λ i. Stands hash_secret request keys at later body i) told
            (record {
              producer = producer;
              grant = _;
              admitted = who;
              may_read = (and-eq-true (key_has_scope who.row "events:read") true scopes).0;
              names_environment = refl;
              decoded =
                  grant-mint jwt default_ttl secret_key (token_request key producer body) now later
                    decodes (subst (λ i. later < now + i.expires_in) (sym told) alive);
              is_home = refl;
              has_user = refl;
              has_scopes = refl;
              has_patterns = refl;
              is_operator = refl;
            })
