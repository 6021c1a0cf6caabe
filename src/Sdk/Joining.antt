-- ===== src/Sdk/Joining.antt =====
-- The topics that a consumer of the client names are the topics that it joins: the token that
-- `_realtime_token` asks for (sdk/python/beacn.py), and the stream of routes/api/realtime.py.
use Prim.Native.String.{[], ◌∷◌}
use Prim.Native.String
use text.Mathlib.TextLemmas.{nil-append, cons-append}
use beacn.Base.{
  ℕ, ◌+◌, ◌<◌, ◌≡◌, refl, ap, sym, subst, ◌∙◌, Bool, true, false, ◌&&◌, String, List, Option, none,
  some, is_empty, arith, All, All-imp, Bool-cases, inl, inr, map, keep, find, find-passes,
  and-eq-true, elem, ◌==◌, eq_iff, eq_refl,
}
use beacn.Base.Strip.{strip}
use beacn.Topics.{Grant, TopicSpec, is_foreign, spec_or_default, matches_pattern, default_spec}
use beacn.Topics.Glob.Literal.{Lacks, fnmatchcase-literal}
use beacn.Topics.Authorization.{by_pattern, authorize_subscription_iff}
use beacn.Auth.{ApiKey}
use beacn.Auth.Tokens.{Jwt}
use beacn.Auth.Tokens.Grants.{Decodes}
use beacn.Events.Model.{Time}
use beacn.Api.{HttpRequest, answered, reply}
use beacn.Api.Tokens.{TokenBody, Issued, issue_realtime_token, Stands, issue_realtime_token-Stands}
use beacn.Realtime.Session.{Backing, is_row, authorize}
use beacn.Realtime.Stream.{split_commas, is_full, requested, allowed_topics}

-- `",".join(topics)`
unfoldable pub join_commas : List String → String
join_commas List.[] = ""
join_commas (List.◌∷◌ t List.[]) = t
join_commas (List.◌∷◌ t (List.◌∷◌ u ts)) =
    String.◌++◌ t (String.◌++◌ "," (join_commas (List.◌∷◌ u ts)))

-- The body of `_realtime_token(topics)`, as the route reads it.
abbrev pub token_body_of : List String → TokenBody
token_body_of topics = record {
  user_id = none;
  organization_id = none;
  project_ids = List.[];
  topic_patterns = topics;
  ttl_seconds = none;
}

-- A name of a topic with no comma, no blank at its ends, and none of the signs of a pattern.
pub record IsPlain (t : String) : Type 0 where
  pub named : is_empty t ≡ false
  pub no_comma : Lacks b',' t
  pub trimmed : strip t ≡ t
  pub no_star : Lacks b'*' t
  pub no_mark : Lacks b'?' t
  pub no_bracket : Lacks b'[' t

split_commas-one : (t : String) → Lacks b',' t → split_commas t ≡ List.◌∷◌ t List.[]
unfolding split_commas
split_commas-one [] h = refl
split_commas-one (c ∷ t) h = rw (h.0, split_commas-one t h.1) refl

split_commas-append :
    (t rest : String)
    → Lacks b',' t
    → split_commas (String.◌++◌ t (String.◌++◌ "," rest)) ≡ List.◌∷◌ t (split_commas rest)
unfolding split_commas
split_commas-append [] rest h = rw (nil-append, cons-append, nil-append) refl
split_commas-append (c ∷ t) rest h = rw cons-append (rw (h.0, split_commas-append t rest h.1) refl)

split_commas-join_commas :
    (t : String) (ts : List String)
    → All IsPlain (List.◌∷◌ t ts)
    → split_commas (join_commas (List.◌∷◌ t ts)) ≡ List.◌∷◌ t ts
unfolding join_commas
split_commas-join_commas t List.[] h = split_commas-one t h.0.no_comma
split_commas-join_commas t (List.◌∷◌ u ts) h =
    split_commas-append t (join_commas (List.◌∷◌ u ts)) h.0.no_comma
    ∙ ap (List.◌∷◌ t) (split_commas-join_commas u ts h.1)

kept : (ts : List String) → All IsPlain ts → keep is_full (map strip ts) ≡ ts
kept List.[] h = refl
kept (List.◌∷◌ t ts) h = rw (h.0.trimmed, h.0.named) (ap (List.◌∷◌ t) (kept ts h.1))

requested-join_commas : (ts : List String) → All IsPlain ts → requested (some (join_commas ts)) ≡ ts
unfolding requested join_commas split_commas strip
requested-join_commas List.[] h = refl
requested-join_commas (List.◌∷◌ t ts) h =
    ap (λ us. keep is_full (map strip us)) (split_commas-join_commas t ts h)
    ∙ kept (List.◌∷◌ t ts) h

named_by :
    (t : String) (ts : List String) → IsPlain t → elem t ts ≡ true → matches_pattern t ts ≡ true
unfolding matches_pattern
named_by t List.[] h k = absurd (cc)
named_by t (List.◌∷◌ p ps) h k = elim (Bool-cases (t == p)) [
  | inl here ↦
      rw (← (eq_iff t p).0 here, fnmatchcase-literal t h.no_star h.no_mark h.no_bracket) refl
  | inr other ↦ ground (arith, named_by t ps h)
]

default_spec-environment :
    (topic environment : String) → (default_spec topic environment).environment ≡ some environment
unfolding default_spec
default_spec-environment topic environment = ground arith

own_is_home : (environment : String) → is_foreign (some environment) environment ≡ false
own_is_home environment = elim (Bool-cases (is_empty environment)) [
  | inl bare ↦ rw bare refl
  | inr named ↦ rw (named, eq_refl environment) refl
]

-- A row that is found is of the grant's environment, and so is the spec of a topic without one.
spec_is_home :
    (topic : String) (grant : Grant) (rows : List TopicSpec)
    → is_foreign
        (spec_or_default topic grant (find (is_row grant.environment topic) rows)).environment
        grant.environment
      ≡ false
spec_is_home topic grant rows = go (find (is_row grant.environment topic) rows) refl
  where
    default_home :
        is_foreign (default_spec topic grant.environment).environment grant.environment ≡ false
    default_home =
        ap (λ o. is_foreign o grant.environment) (default_spec-environment topic grant.environment)
        ∙ own_is_home grant.environment

    row_home :
        (row : TopicSpec) (own : Option String)
        → row.environment ≡ own
        → (elim own as (λ x. Bool) [
          | none ↦ false
          | some e ↦ e == grant.environment && row.name == topic
        ])
          ≡ true
        → is_foreign own grant.environment ≡ false
    row_home row none e h = refl
    row_home row (some own) e h = ground (arith, (and-eq-true (own == grant.environment) _ h).0)

    go :
        (found : Option TopicSpec)
        → find (is_row grant.environment topic) rows ≡ found
        → is_foreign (spec_or_default topic grant found).environment grant.environment ≡ false
    go none e = default_home
    go (some row) e =
        row_home row row.environment refl (find-passes (is_row grant.environment topic) rows row e)

module _ (backing : Backing) (grant : Grant) where
  authorize-named :
      (t : String)
      → IsPlain t
      → elem t grant.topic_patterns ≡ true
      → authorize backing grant t ≡ true
  unfolding authorize
  authorize-named t h k =
      (authorize_subscription_iff t grant (find (is_row grant.environment t) backing.topics)).1 (
        h.named,
        spec_is_home t grant backing.topics,
        by_pattern (named_by t grant.topic_patterns h k),
      )

  keep-authorize :
      (ts : List String)
      → All IsPlain ts
      → All (λ t. elem t grant.topic_patterns ≡ true) ts
      → keep (authorize backing grant) ts ≡ ts
  keep-authorize List.[] h k = refl
  keep-authorize (List.◌∷◌ t ts) h k =
      rw (authorize-named t h.0 k.0) (ap (List.◌∷◌ t) (keep-authorize ts h.1 k.1))

-- Every member of a list is in it.
elem-All : (ts : List String) → All (λ t. elem t ts ≡ true) ts
elem-All List.[] = tt
elem-All (List.◌∷◌ t ts) =
    (rw (eq_refl t) refl, All-imp _ _ ts (λ u h. ground (arith, h)) (elem-All ts))

-- A consumer of the client that subscribes to topics of plain names joins each of them, in that order,
-- whatever the scopes of its key are beside `events:read`, which the route of the tokens asks for, and
-- whatever visibility the rows of the topics have: the token that the client asks for names the topics
-- as its patterns, and the stream reads them back from its parameter. The route answers with a token,
-- which is alive; the token library decodes its own tokens.
pub subscribe-allowed_topics :
    {Token : Type 0} (jwt : Jwt Token) (default_ttl : ℕ) (secret_key : String)
    (hash_secret : String → String) (request : HttpRequest) (saves : Bool) (keys : List ApiKey)
    (topics : List String) (backing : Backing) (at : Time) (now later : ℕ) (issued : Issued Token)
    → Decodes jwt
    → All IsPlain topics
    → (issue_realtime_token jwt default_ttl secret_key hash_secret request saves keys
        (token_body_of topics)
        at
        now).0.0
      ≡ answered (reply 201 issued)
    → later < now + issued.expires_in
    → (t : Stands jwt default_ttl secret_key hash_secret request keys at later
        (token_body_of topics)
        issued)
      × (allowed_topics backing t.grant (some (join_commas topics)) ≡ topics)
unfolding allowed_topics
subscribe-allowed_topics jwt default_ttl secret_key hash_secret request saves keys topics backing at
      now later issued decodes plain h alive =
    let t =
      issue_realtime_token-Stands jwt default_ttl secret_key hash_secret request saves keys
        (token_body_of topics) at now later issued decodes h alive in
    (
      t,
      ap (keep _) (requested-join_commas topics plain)
          ∙ keep-authorize backing t.grant topics plain (
              subst (λ ps. All (λ u. elem u ps ≡ true) topics) (sym t.has_patterns)
                (elem-All topics)),
    )
