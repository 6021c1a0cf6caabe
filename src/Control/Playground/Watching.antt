-- ===== src/Control/Playground/Watching.antt =====
-- How far the tokens of operators reach.
use beacn.Base.{
  ℕ, ◌+◌, ◌<◌, ◌≡◌, refl, subst, ap, ◌∙◌, sym, true, false, String, List, Option, is_empty,
}
use beacn.Errors.{ok, bind-eq-ok, ok-injective}
use beacn.Topics.{Grant, TopicSpec, allowed, authorize_subscription, is_foreign, spec_or_default}
use beacn.Topics.Claims.{wildcard_covers_all}
use beacn.Auth.{Producer}
use beacn.Auth.Tokens.{Jwt, grant_from_realtime_token}
use beacn.Auth.Tokens.Grants.{Decodes, grant-mint}
use beacn.Control.Playground.{home, playground_request, playground_producer, playground_token}

-- A token that the playground gives out, for any producer of an environment, lets its bearer join every
-- topic that is not of another environment, for as long as the token lives: internal and private
-- topics, and the topics of every user. The token library decodes its own tokens.
pub playground_token-wildcard :
    {Token : Type 0} (jwt : Jwt Token) (default_ttl : ℕ) (secret_key : String) (now later : ℕ)
    (environment producer_id : String) (producers : List Producer) (token : Token) (ttl : ℕ)
    → Decodes jwt
    → playground_token jwt default_ttl secret_key now environment producer_id producers
      ≡ ok (token, ttl)
    → later < now + ttl
    → (grant : Grant) × ((grant_from_realtime_token jwt default_ttl secret_key token later
          ≡ ok grant)
        × ((topic : String) (row : Option TopicSpec)
            → is_empty topic ≡ false
            → is_foreign (spec_or_default topic grant row).environment (home environment) ≡ false
            → allowed (authorize_subscription topic grant row) ≡ true))
unfolding playground_token playground_request
playground_token-wildcard {Token} jwt default_ttl secret_key now later environment producer_id
      producers token ttl decodes minted alive =
    let (producer, _, made) =
      bind-eq-ok (playground_producer environment producer_id producers) _ minted in
    let same = ok-injective made in
    let lives = subst (λ l. later < now + l) (ap (λ (p : Token × ℕ). p.1) (sym same)) alive in
    (
      _,
      (
        ap (λ t. grant_from_realtime_token jwt default_ttl secret_key t later)
              (ap (λ (p : Token × ℕ). p.0) (sym same))
            ∙ grant-mint jwt default_ttl secret_key (playground_request environment producer) now
                later decodes lives,
        λ topic row named near. wildcard_covers_all topic _ row named near refl,
      ),
    )
