-- ===== src/Api/Tokens/Users.antt =====
-- What a token that a producer asks for on behalf of one of its users reaches among the topics of users.
use beacn.Base.{
  ℕ, ◌+◌, ◌<◌, ◌≡◌, ◌≢◌, ◌↔◌, ◌⊎◌, inl, inr, refl, sym, ap, subst, ◌∙◌, Bool, true, false, ◌||◌,
  String, List, [], ◌∷◌, Option, some, Bool-cases, arith, elem, keep, is_empty, eq_iff, ◌==◌,
}
use beacn.Events.Model.{Time}
use beacn.Topics.{
  Grant, TopicSpec, allowed, has_scope, matches_pattern, authorize_subscription, is_foreign,
  spec_or_default,
}
use beacn.Topics.Claims.{owned_topic, user_topic_iff}
use beacn.Auth.{ApiKey, scope_list, key_has_scope}
use beacn.Auth.Tokens.{Jwt, text_if}
use beacn.Auth.Tokens.Grants.{Decodes}
use beacn.Api.{HttpRequest, answered, reply}
use beacn.Api.Tokens.{TokenBody, Issued, issue_realtime_token, Stands, issue_realtime_token-Stands}

-- A key without the scope hands none of it on.
elem-kept :
    (ss : List String)
    → elem "system:read" ss ≡ false
    → (elem "system:read" (keep (λ s. s == "system:read") ss)
        || elem "*" (keep (λ s. s == "system:read") ss))
      ≡ false
elem-kept [] h = refl
elem-kept (s ∷ ss) h = ground (arith, elem-kept ss, eq_iff s "system:read", eq_iff "system:read" s)

unmatched : (topic : String) → matches_pattern topic [] ≡ false
unfolding matches_pattern
unmatched topic = refl

scope_of_no_operator :
    (grant : Grant) (key : ApiKey)
    → grant.scopes ≡ keep (λ s. s == "system:read") (scope_list key)
    → grant.operator ≡ false
    → key_has_scope key "system:read" ≡ false
    → has_scope grant "system:read" ≡ false
unfolding has_scope
scope_of_no_operator grant key scopes plain lacks =
    rw (scopes, plain) (ground (arith, elem-kept (scope_list key) (ground (arith, lacks))))

-- What such a grant may join among the topics of users.
own_topic :
    (grant : Grant) (user ident : String) (row : Option TopicSpec)
    → grant.user_id ≡ some user
    → grant.topic_patterns ≡ []
    → grant.operator ≡ false
    → has_scope grant "system:read" ≡ false
    → is_empty ident ≡ false
    → (allowed (authorize_subscription (owned_topic "user" ident) grant row) ≡ true) ↔ (
        (is_foreign
            (spec_or_default (owned_topic "user" ident) grant row).environment
            grant.environment
          ≡ false)
        × (ident ≡ user)
        × ((spec_or_default (owned_topic "user" ident) grant row).visibility ≢ "internal"))
own_topic grant user ident row claimed bare plain no_scope some_ident =
    let rules = user_topic_iff ident grant row some_ident plain (
      ap (matches_pattern (owned_topic "user" ident)) bare
      ∙ unmatched (owned_topic "user" ident)) in
    (
      λ may. let r = rules.0 may in let own = narrow r.1 in (r.0, own.0, own.1),
      λ fit. rules.1 (fit.0, inl (claimed ∙ ap some (sym fit.1), fit.2)),
    )
  where
    narrow :
        ((grant.user_id ≡ some ident)
            × ((spec_or_default (owned_topic "user" ident) grant row).visibility ≢ "internal"))
          ⊎ ((has_scope grant "system:read" ≡ true)
              × ((spec_or_default (owned_topic "user" ident) grant row).visibility ≡ "internal"))
        → (ident ≡ user)
          × ((spec_or_default (owned_topic "user" ident) grant row).visibility ≢ "internal")
    narrow (inl (same, v)) = (cc, v)
    narrow (inr (scope, v)) = absurd (cc)

-- A producer asks for a token for its user, and for no patterns. Unless the key that it was admitted
-- with has the scope `system:read`, a topic `user:<id>` may be joined with the token that is answered
-- exactly if it is this user's own, its row does not make it internal, and it is not of another
-- environment, for as long as the answer says. The token library decodes its own tokens.
pub issue_realtime_token-user :
    {Token : Type 0} (jwt : Jwt Token) (default_ttl : ℕ) (secret_key : String)
    (hash_secret : String → String) (request : HttpRequest) (saves : Bool) (keys : List ApiKey)
    (body : TokenBody) (at : Time) (now later : ℕ) (issued : Issued Token) (user ident : String)
    (row : Option TopicSpec)
    → Decodes jwt
    → (issue_realtime_token jwt default_ttl secret_key hash_secret request saves keys body at
        now).0.0
      ≡ answered (reply 201 issued)
    → later < now + issued.expires_in
    → body.user_id ≡ some user
    → body.topic_patterns ≡ []
    → is_empty user ≡ false
    → is_empty ident ≡ false
    → (t : Stands jwt default_ttl secret_key hash_secret request keys at later body issued)
      × ((key_has_scope t.admitted.row "system:read" ≡ true)
          ⊎ ((allowed (authorize_subscription (owned_topic "user" ident) t.grant row) ≡ true) ↔ (
              (is_foreign
                  (spec_or_default (owned_topic "user" ident) t.grant row).environment
                  t.producer.environment
                ≡ false)
              × (ident ≡ user)
              × ((spec_or_default (owned_topic "user" ident) t.grant row).visibility
                  ≢ "internal"))))
issue_realtime_token-user jwt default_ttl secret_key hash_secret request saves keys body at now
      later issued user ident row decodes h alive asked bare named some_ident =
    let t =
      issue_realtime_token-Stands jwt default_ttl secret_key hash_secret request saves keys body at
        now later issued decodes h alive in
    (
      t,
      elim (Bool-cases (key_has_scope t.admitted.row "system:read")) [
        | inl reads ↦ inl reads
        | inr lacks ↦
            let plain : t.grant.operator ≡ false = t.is_operator ∙ lacks in
            let claimed : t.grant.user_id ≡ some user =
              t.has_user ∙ ap text_if asked ∙ (rw named refl) in
            let no_scope = scope_of_no_operator t.grant t.admitted.row t.has_scopes plain lacks in
            inr (
              subst
                (λ e.
                  (allowed (authorize_subscription (owned_topic "user" ident) t.grant row) ≡ true)
                  ↔ ((is_foreign
                          (spec_or_default (owned_topic "user" ident) t.grant row).environment e
                        ≡ false)
                      × (ident ≡ user)
                      × ((spec_or_default (owned_topic "user" ident) t.grant row).visibility
                          ≢ "internal")))
                t.is_home
                (own_topic t.grant user ident row claimed (t.has_patterns ∙ bare) plain no_scope
                  some_ident))
      ],
    )
