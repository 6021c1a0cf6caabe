-- ===== src/Topics/Claims.antt =====
-- What the rules of topic authorization come to for the topics of one owner, for topics without a
-- row, and for a grant that carries the wildcard.
use Prim.Native.String
use Prim.Native.String.{[], ◌∷◌}
use text.Mathlib.TextLemmas.{nil-append, cons-append}
use beacn.Base.{
  Bool, true, false, ◌||◌, ◌≡◌, refl, ◌⊎◌, inl, inr, String, code, List, Option, none, some, arith,
  eq_iff, eq_refl, ◌==◌, ◌↔◌, ◌≢◌, eqb, is_empty, elem, Bool-cases, ap, sym, ◌∙◌,
}
use beacn.Topics.{
  Grant, TopicSpec, allowed, has_scope, namespace, split_colon, is_claim, is_system,
  matches_pattern, is_foreign, spec_or_default, default_spec, private_heads, authorize_subscription,
}
use beacn.Topics.Glob.Matching.{fnmatchcase_star}
use beacn.Topics.Authorization.{
  Entitled, IsOwned, as_operator, by_pattern, by_scope, as_user, as_member, in_project, as_public,
  authorize_subscription_iff,
}

-- `f"{head}:{ident}"`
abbrev pub owned_topic : String → String → String
owned_topic head ident = String.◌++◌ head (String.◌++◌ ":" ident)

abbrev pub has_colon : String → Bool
has_colon [] = false
has_colon (c ∷ s) = eqb (code c) b':' || has_colon s

split_colon-owned_topic :
    (head ident : String)
    → has_colon head ≡ false
    → split_colon (owned_topic head ident) ≡ some (head, ident)
split_colon-owned_topic [] ident h = rw (nil-append, cons-append, nil-append)
split_colon-owned_topic (c ∷ head) ident h =
    rw cons-append (ground (arith, split_colon-owned_topic head ident))

pub namespace-owned_topic :
    (head ident : String)
    → has_colon head ≡ false
    → namespace (owned_topic head ident) ≡ (head, some ident)
unfolding namespace
namespace-owned_topic head ident h = rw (split_colon-owned_topic head ident h)

is_claim→eq :
    (ident : String) (claim : Option String)
    → is_claim (some ident) claim ≡ true
    → claim ≡ some ident
is_claim→eq ident none h = absurd (cc)
is_claim→eq ident (some c) h = ap some (sym ((eq_iff ident c).0 h))

apart_head :
    (head other ident : String)
    → has_colon head ≡ false
    → (head == other) ≡ false
    → ¬ IsOwned other (owned_topic head ident)
apart_head head other ident h apart o =
    let same : head ≡ other = ground (arith, namespace-owned_topic head ident h, o.head_eq) in
    cc ((eq_iff head other).1 same)

-- Exactly who may join `user:<id>`, beside operators and grants with a pattern for it.
pub user_topic_iff :
    (ident : String) (grant : Grant) (row : Option TopicSpec)
    → is_empty ident ≡ false
    → grant.operator ≡ false
    → matches_pattern (owned_topic "user" ident) grant.topic_patterns ≡ false
    → (allowed (authorize_subscription (owned_topic "user" ident) grant row) ≡ true) ↔ (
        (is_foreign
            (spec_or_default (owned_topic "user" ident) grant row).environment
            grant.environment
          ≡ false)
        × (((grant.user_id ≡ some ident)
              × ((spec_or_default (owned_topic "user" ident) grant row).visibility ≢ "internal"))
            ⊎ ((has_scope grant "system:read" ≡ true)
                × ((spec_or_default (owned_topic "user" ident) grant row).visibility
                    ≡ "internal"))))
user_topic_iff ident grant row named plain unmatched = (
  λ h.
      let rules = (authorize_subscription_iff (owned_topic "user" ident) grant row).0 h in
      (rules.1, entitled rules.2),
  λ h.
      (authorize_subscription_iff (owned_topic "user" ident) grant row).1
        (full ident, h.0, rules_of h.1),
)
  where
    topic : String
    topic = owned_topic "user" ident

    spec : TopicSpec
    spec = spec_or_default (owned_topic "user" ident) grant row

    split : namespace (owned_topic "user" ident) ≡ ("user", some ident)
    split = namespace-owned_topic "user" ident refl

    full : (ident : String) → is_empty (owned_topic "user" ident) ≡ false
    full ident = rw cons-append refl

    owned : IsOwned "user" (owned_topic "user" ident)
    owned = record { head_eq = rw split; has_ident = rw split (ground arith) }

    not_reserved : is_system (namespace (owned_topic "user" ident)).0 ≡ true → ⊥
    not_reserved i = cc (rw split at i)

    entitled :
        Entitled grant
          (owned_topic "user" ident)
          (spec_or_default (owned_topic "user" ident) grant row)
        → ((grant.user_id ≡ some ident)
            × ((spec_or_default (owned_topic "user" ident) grant row).visibility ≢ "internal"))
          ⊎ ((has_scope grant "system:read" ≡ true)
              × ((spec_or_default (owned_topic "user" ident) grant row).visibility ≡ "internal"))
    entitled (as_operator e) = absurd (cc)
    entitled (by_pattern e) = absurd (cc)
    entitled (by_scope (inl i) e) = inr (e, i)
    entitled (by_scope (inr i) e) = absurd (not_reserved i)
    entitled (as_user n o e) = inl (is_claim→eq ident grant.user_id (rw split at e), λ i. n (inl i))
    entitled (as_member n o e) = absurd (apart_head "user" "organization" ident refl refl o)
    entitled (in_project n o e) = absurd (apart_head "user" "project" ident refl refl o)
    entitled (as_public o) = absurd (o.not_user owned)

    rules_of :
        ((grant.user_id ≡ some ident)
            × ((spec_or_default (owned_topic "user" ident) grant row).visibility ≢ "internal"))
          ⊎ ((has_scope grant "system:read" ≡ true)
              × ((spec_or_default (owned_topic "user" ident) grant row).visibility ≡ "internal"))
        → Entitled grant
            (owned_topic "user" ident)
            (spec_or_default (owned_topic "user" ident) grant row)
    rules_of (inl (claimed, n)) =
        as_user (λ i. elim i [ inl v ↦ n v | inr v ↦ not_reserved v ]) owned
          (rw (split, claimed) (eq_refl ident))
    rules_of (inr (e, i)) = by_scope (inl i) e

star_covers :
    (topic : String) (ps : List String) → elem "*" ps ≡ true → matches_pattern topic ps ≡ true
unfolding matches_pattern
star_covers topic List.[] h = absurd (cc)
star_covers topic (List.◌∷◌ p ps) h = elim (Bool-cases ("*" == p)) [
  | inl here ↦ rw (← (eq_iff "*" p).0 here, fnmatchcase_star topic)
  | inr other ↦ ground (arith, star_covers topic ps)
]

-- A grant whose patterns include "*" may subscribe to every topic with a name whose spec is not of
-- another environment: also to `system` and `audit` topics without the scope `system:read`, to
-- private topics, and to the topics of other users.
pub wildcard_covers_all :
    (topic : String) (grant : Grant) (row : Option TopicSpec)
    → is_empty topic ≡ false
    → is_foreign (spec_or_default topic grant row).environment grant.environment ≡ false
    → elem "*" grant.topic_patterns ≡ true
    → allowed (authorize_subscription topic grant row) ≡ true
wildcard_covers_all topic grant row named home star =
    (authorize_subscription_iff topic grant row).1
      (named, home, by_pattern (star_covers topic grant.topic_patterns star))

default_private :
    (head ident environment : String)
    → namespace (owned_topic head ident) ≡ (head, some ident)
    → is_system head ≡ false
    → elem head private_heads ≡ true
    → is_empty ident ≡ false
    → (default_spec (owned_topic head ident) environment).visibility ≡ "private"
unfolding default_spec
default_private head ident environment split apart listed named = rw (split, apart, listed, named)

unlisted :
    (head ident : String) (grant : Grant)
    → namespace (owned_topic head ident) ≡ (head, some ident)
    → (is_system head ≡ false)
      × (elem head private_heads ≡ true)
      × ((head == "user") ≡ false)
      × ((head == "organization") ≡ false)
      × ((head == "project") ≡ false)
    → is_empty ident ≡ false
    → grant.operator ≡ false
    → matches_pattern (owned_topic head ident) grant.topic_patterns ≡ false
    → allowed (authorize_subscription (owned_topic head ident) grant none) ≡ false
unlisted head ident grant split (not_system, listed, not_user, not_org, not_project) named plain
      unmatched =
    elim (Bool-cases (allowed (authorize_subscription topic grant none))) [
      | inl h ↦ absurd (refuse ((authorize_subscription_iff topic grant none).0 h).2)
      | inr h ↦ h
    ]
  where
    topic : String
    topic = owned_topic head ident

    is_private : (default_spec topic grant.environment).visibility ≡ "private"
    is_private = default_private head ident grant.environment split not_system listed named

    refuse : Entitled grant topic (default_spec topic grant.environment) → ⊥
    refuse (as_operator e) = cc
    refuse (by_pattern e) = cc
    refuse (by_scope (inl i) e) = cc ((eq_iff "private" "internal").1 (sym is_private ∙ i))
    refuse (by_scope (inr i) e) = cc (rw split at i)
    refuse (as_user n o e) = cc ((eq_iff head "user").1 (rw split at o.head_eq))
    refuse (as_member n o e) = cc ((eq_iff head "organization").1 (rw split at o.head_eq))
    refuse (in_project n o e) = cc ((eq_iff head "project").1 (rw split at o.head_eq))
    refuse (as_public o) = o.not_private is_private

-- A topic `connection:<id>` or `session:<id>` without a row reaches operators and grants with a
-- pattern for it, and nobody else.
pub unlisted_private :
    (head ident : String) (grant : Grant)
    → (head ≡ "connection") ⊎ (head ≡ "session")
    → is_empty ident ≡ false
    → grant.operator ≡ false
    → matches_pattern (owned_topic head ident) grant.topic_patterns ≡ false
    → allowed (authorize_subscription (owned_topic head ident) grant none) ≡ false
unlisted_private head ident grant (inl e) named plain unmatched = rw e (
    unlisted "connection" ident grant (namespace-owned_topic "connection" ident refl)
      (refl, refl, refl, refl, refl) named plain (rw e at unmatched))
unlisted_private head ident grant (inr e) named plain unmatched = rw e (
    unlisted "session" ident grant (namespace-owned_topic "session" ident refl)
      (refl, refl, refl, refl, refl) named plain (rw e at unmatched))
