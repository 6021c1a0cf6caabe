-- ===== src/Auth/Tokens/Grants.antt =====
-- The realtime token: what `mint_realtime_token` signs is what the realtime endpoint grants.
use beacn.Base.{
  ℕ, ◌+◌, ◌<◌, ◌≡◌, refl, ap, ◌∙◌, true, false, String, List, [], ◌∷◌, Option, none, some, is_empty,
  ◌==◌, Bool-cases, inl, inr,
}
use beacn.Base.Int.{pos}
use beacn.Base.Json.{bool, num, str, Fields, end, field, get, get?, value_or_null, is_true}
use beacn.Errors.{ok}
use beacn.Auth.Tokens.{
  Jwt, issuer, audience, items_of, texts_of, with_text, with_texts, Request, ttl_of, claims_of,
  text_or_none, text_or, list_or_none, grant_of, mint_realtime_token, grant_or_raise,
  grant_from_realtime_token, text_if,
}

texts_of-items_of : (ss : List String) → texts_of (items_of ss) ≡ ss
texts_of-items_of [] = refl
texts_of-items_of (s ∷ ss) = ap (λ ts. s ∷ ts) (texts_of-items_of ss)

get?-with_text_other :
    (j k : String) (o : Option String) (fs : Fields)
    → (j == k) ≡ false
    → get? (with_text j o fs) k ≡ get? fs k
get?-with_text_other j k none fs h = refl
get?-with_text_other j k (some s) fs h = elim (Bool-cases (is_empty s)) [
  | inl bare ↦ rw bare refl
  | inr given ↦ rw (given, h) refl
]

get?-with_texts_other :
    (j k : String) (o : List String) (fs : Fields)
    → (j == k) ≡ false
    → get? (with_texts j o fs) k ≡ get? fs k
get?-with_texts_other j k [] fs h = refl
get?-with_texts_other j k (s ∷ ss) fs h = rw h refl

with_text-own :
    (j : String) (o : Option String) (fs : Fields)
    → (j == j) ≡ true
    → get? fs j ≡ none
    → text_or_none (value_or_null (get? (with_text j o fs) j)) ≡ text_if o
with_text-own j none fs h k = rw k refl
with_text-own j (some s) fs h k = elim (Bool-cases (is_empty s)) [
  | inl bare ↦ rw (bare, k) refl
  | inr given ↦ rw (given, h) refl
]

with_texts-own :
    (j : String) (ss : List String) (fs : Fields)
    → (j == j) ≡ true
    → get? fs j ≡ none
    → list_or_none (value_or_null (get? (with_texts j ss fs) j)) ≡ ss
with_texts-own j [] fs h k = rw k refl
with_texts-own j (s ∷ ss) fs h k = rw h (texts_of-items_of (s ∷ ss))

-- The grant of the claims that were minted.
grant_of-claims_of :
    (r : Request) (ttl now : ℕ)
    → grant_of (claims_of r ttl now) ≡ record {
      environment = r.environment;
      user_id = text_if r.user_id;
      organization_id = text_if r.organization_id;
      project_ids = r.project_ids;
      scopes = r.scopes;
      topic_patterns = r.topic_patterns;
      operator = r.operator;
      producer_id = text_if r.producer_id;
    }
unfolding grant_of claims_of
grant_of-claims_of r ttl now =
    let c0 : Fields = field "operator" (bool r.operator) (
      field "env" (str r.environment) (
        field "exp" (num (pos (now + ttl)) 0) (
          field "iat" (num (pos now) 0)
            (field "aud" (str audience) (field "iss" (str issuer) end))))) in
    let c1 = with_text "uid" r.user_id c0 in
    let c2 = with_text "org" r.organization_id c1 in
    let c3 = with_texts "projects" r.project_ids c2 in
    let c4 = with_texts "scopes" r.scopes c3 in
    let c5 = with_texts "topics" r.topic_patterns c4 in
    let below5 : (k : String)
        → ("pid" == k) ≡ false
        → get? (with_text "pid" r.producer_id c5) k ≡ get? c5 k =
      λ k h. get?-with_text_other "pid" k r.producer_id c5 h in
    let below4 : (k : String) → ("topics" == k) ≡ false → get? c5 k ≡ get? c4 k =
      λ k h. get?-with_texts_other "topics" k r.topic_patterns c4 h in
    let below3 : (k : String) → ("scopes" == k) ≡ false → get? c4 k ≡ get? c3 k =
      λ k h. get?-with_texts_other "scopes" k r.scopes c3 h in
    let below2 : (k : String) → ("projects" == k) ≡ false → get? c3 k ≡ get? c2 k =
      λ k h. get?-with_texts_other "projects" k r.project_ids c2 h in
    let below1 : (k : String) → ("org" == k) ≡ false → get? c2 k ≡ get? c1 k =
      λ k h. get?-with_text_other "org" k r.organization_id c1 h in
    let below0 : (k : String) → ("uid" == k) ≡ false → get? c1 k ≡ get? c0 k =
      λ k h. get?-with_text_other "uid" k r.user_id c0 h in
    λ i. record {
      environment =
          (ap (text_or "development") (
              below5 "env" refl
              ∙ below4 "env" refl
              ∙ below3 "env" refl
              ∙ below2 "env" refl
              ∙ below1 "env" refl
              ∙ below0 "env" refl))
            i;
      user_id =
          (ap (λ v. text_or_none (value_or_null v))
                (below5 "uid" refl
                  ∙ below4 "uid" refl
                  ∙ below3 "uid" refl
                  ∙ below2 "uid" refl
                  ∙ below1 "uid" refl)
              ∙ with_text-own "uid" r.user_id c0 refl refl)
            i;
      organization_id =
          (ap (λ v. text_or_none (value_or_null v))
                (below5 "org" refl ∙ below4 "org" refl ∙ below3 "org" refl ∙ below2 "org" refl)
              ∙ with_text-own "org" r.organization_id c1 refl (below0 "org" refl))
            i;
      project_ids =
          (ap (λ v. list_or_none (value_or_null v))
                (below5 "projects" refl ∙ below4 "projects" refl ∙ below3 "projects" refl)
              ∙ with_texts-own "projects" r.project_ids c2 refl
                  (below1 "projects" refl ∙ below0 "projects" refl))
            i;
      scopes =
          (ap (λ v. list_or_none (value_or_null v)) (below5 "scopes" refl ∙ below4 "scopes" refl)
              ∙ with_texts-own "scopes" r.scopes c3 refl
                  (below2 "scopes" refl ∙ below1 "scopes" refl ∙ below0 "scopes" refl))
            i;
      topic_patterns =
          (ap (λ v. list_or_none (value_or_null v)) (below5 "topics" refl)
              ∙ with_texts-own "topics" r.topic_patterns c4 refl (
                  below3 "topics" refl
                  ∙ below2 "topics" refl
                  ∙ below1 "topics" refl
                  ∙ below0 "topics" refl))
            i;
      operator =
          (ap (λ v. is_true (value_or_null v))
              (below5 "operator" refl
                ∙ below4 "operator" refl
                ∙ below3 "operator" refl
                ∙ below2 "operator" refl
                ∙ below1 "operator" refl
                ∙ below0 "operator" refl))
            i;
      producer_id =
          (with_text-own "pid" r.producer_id c5 refl (
              below4 "pid" refl
              ∙ below3 "pid" refl
              ∙ below2 "pid" refl
              ∙ below1 "pid" refl
              ∙ below0 "pid" refl))
            i;
    }

-- What a token library does for its own tokens: it decodes one that it encoded with the same key, if
-- the claims name the audience and the issuer that are asked for and have not expired.
abbrev pub Decodes : {Token : Type 0} → Jwt Token → Type 0
Decodes jwt =
    (claims : Fields) (key wanted from : String) (expires now : ℕ)
    → get claims "aud" ≡ str wanted
    → get claims "iss" ≡ str from
    → get claims "exp" ≡ num (pos expires) 0
    → now < expires
    → jwt.decode (jwt.encode claims key) key wanted from now ≡ some claims

-- A claim that is always there stands below those that may be left out.
get?-fixed :
    (r : Request) (ttl now : ℕ) (k : String)
    → ("pid" == k) ≡ false
    → ("topics" == k) ≡ false
    → ("scopes" == k) ≡ false
    → ("projects" == k) ≡ false
    → ("org" == k) ≡ false
    → ("uid" == k) ≡ false
    → get? (claims_of r ttl now) k
      ≡ get?
          (field "operator" (bool r.operator) (
            field "env" (str r.environment) (
              field "exp" (num (pos (now + ttl)) 0) (
                field "iat"
                  (num (pos now) 0)
                  (field "aud" (str audience) (field "iss" (str issuer) end))))))
          k
unfolding claims_of
get?-fixed r ttl now k h1 h2 h3 h4 h5 h6 =
    get?-with_text_other "pid" k r.producer_id _ h1
    ∙ get?-with_texts_other "topics" k r.topic_patterns _ h2
    ∙ get?-with_texts_other "scopes" k r.scopes _ h3
    ∙ get?-with_texts_other "projects" k r.project_ids _ h4
    ∙ get?-with_text_other "org" k r.organization_id _ h5
    ∙ get?-with_text_other "uid" k r.user_id _ h6

-- A token that the control plane minted is accepted by the realtime endpoint at any later time before
-- it expires, and grants exactly what it was minted for, an empty text counting as none; the token
-- library decodes its own tokens.
pub grant-mint :
    {Token : Type 0} (jwt : Jwt Token) (default_ttl : ℕ) (key : String) (r : Request)
    (now later : ℕ)
    → Decodes jwt
    → later < now + (mint_realtime_token jwt default_ttl key r now).1
    → grant_from_realtime_token jwt default_ttl key
        (mint_realtime_token jwt default_ttl key r now).0
        later
      ≡ ok (record {
        environment = r.environment;
        user_id = text_if r.user_id;
        organization_id = text_if r.organization_id;
        project_ids = r.project_ids;
        scopes = r.scopes;
        topic_patterns = r.topic_patterns;
        operator = r.operator;
        producer_id = text_if r.producer_id;
      })
unfolding mint_realtime_token grant_from_realtime_token
grant-mint jwt default_ttl key r now later decodes alive =
    let ttl = ttl_of default_ttl r.ttl_seconds in
    let decoded =
      decodes (claims_of r ttl now) key audience issuer (now + ttl) later
        (ap value_or_null (get?-fixed r ttl now "aud" refl refl refl refl refl refl))
        (ap value_or_null (get?-fixed r ttl now "iss" refl refl refl refl refl refl))
        (ap value_or_null (get?-fixed r ttl now "exp" refl refl refl refl refl refl)) alive in
    ap (grant_or_raise jwt default_ttl key) decoded ∙ ap ok (grant_of-claims_of r ttl now)
