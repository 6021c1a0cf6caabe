-- ===== src/Topics/Authorization.antt =====
-- Which subscriptions `authorize_subscription` allows, as a relation.
use beacn.Base.{
  Bool, true, false, ◌||◌, ◌&&◌, ◌≡◌, refl, ◌↔◌, ◌≢◌, ◌⊎◌, String, Option, arith, eq_iff, is_empty,
  Bool-cases, and-eq-true, inl, inr, ◌==◌,
}
use beacn.Topics.{
  Grant, TopicSpec, allowed, Decision, has_scope, namespace, is_truthy, is_claim, in_claims,
  is_system, matches_pattern, is_foreign, spec_or_default, decide, authorize_spec,
  authorize_subscription,
}

-- The topic's namespace with an identifier: `user:42`, not `user` or `user:`.
pub record IsOwned (head : String) (topic : String) : Type 0 where
  pub head_eq : (namespace topic).0 ≡ head
  pub has_ident : is_truthy (namespace topic).1 ≡ true

abbrev pub IsInternal : String → TopicSpec → Type 0
IsInternal topic spec = (spec.visibility ≡ "internal") ⊎ (is_system (namespace topic).0 ≡ true)

-- The topic is in none of the namespaces that belong to someone, nor reserved.
pub record IsOpen (topic : String) (spec : TopicSpec) : Type 0 where
  pub not_internal : ¬ IsInternal topic spec
  pub not_user : ¬ IsOwned "user" topic
  pub not_organization : ¬ IsOwned "organization" topic
  pub not_project : ¬ IsOwned "project" topic
  pub not_private : spec.visibility ≢ "private"

-- Why a grant may subscribe to a topic of its environment.
pub data Entitled (grant : Grant) (topic : String) (spec : TopicSpec) : Type 0 where
  as_operator : grant.operator ≡ true → Entitled grant topic spec
  by_pattern : matches_pattern topic grant.topic_patterns ≡ true → Entitled grant topic spec
  by_scope :
      IsInternal topic spec → has_scope grant "system:read" ≡ true → Entitled grant topic spec
  as_user :
      ¬ IsInternal topic spec
      → IsOwned "user" topic
      → is_claim (namespace topic).1 grant.user_id ≡ true
      → Entitled grant topic spec
  as_member :
      ¬ IsInternal topic spec
      → IsOwned "organization" topic
      → is_claim (namespace topic).1 grant.organization_id ≡ true
      → Entitled grant topic spec
  in_project :
      ¬ IsInternal topic spec
      → IsOwned "project" topic
      → in_claims (namespace topic).1 grant.project_ids ≡ true
      → Entitled grant topic spec
  as_public : IsOpen topic spec → Entitled grant topic spec

internal_test : String → TopicSpec → Bool
internal_test topic spec = spec.visibility == "internal" || is_system (namespace topic).0

owned_test : String → String → Bool
owned_test head topic = (namespace topic).0 == head && is_truthy (namespace topic).1

internal_test_iff :
    (topic : String) (spec : TopicSpec) → (internal_test topic spec ≡ true) ↔ IsInternal topic spec
unfolding internal_test
internal_test_iff topic spec = ground (arith, eq_iff spec.visibility "internal")

owned_test_iff : (head topic : String) → (owned_test head topic ≡ true) ↔ IsOwned head topic
unfolding owned_test
owned_test_iff head topic = (
  λ h.
      let (same, some_ident) = and-eq-true _ _ h in
      record { head_eq = (eq_iff _ _).0 same; has_ident = some_ident },
  λ h. rw ((eq_iff _ _).1 h.head_eq, h.has_ident),
)

-- A test that decides a type refutes it by being false.
refuted : {A : Type 0} (b : Bool) → (b ≡ true) ↔ A → b ≡ false → ¬ A
refuted b e f a = cc (e.1 a)

affirmed : {A : Type 0} (b : Bool) → (b ≡ true) ↔ A → ¬ A → b ≡ false
affirmed true e n = absurd (n (e.0 refl))
affirmed false e n = refl

module _ (topic : String) (grant : Grant) (spec : TopicSpec) where
  abbrev verdict : Decision
  verdict = decide (namespace topic).0 (namespace topic).1 grant spec

  decide_open :
      internal_test topic spec ≡ false
      → owned_test "user" topic ≡ false
      → owned_test "organization" topic ≡ false
      → owned_test "project" topic ≡ false
      → allowed verdict ≡ true
      → Entitled grant topic spec
  unfolding decide internal_test owned_test
  decide_open i u o p h = as_public (record {
    not_internal = refuted _ (internal_test_iff topic spec) i;
    not_user = refuted _ (owned_test_iff "user" topic) u;
    not_organization = refuted _ (owned_test_iff "organization" topic) o;
    not_project = refuted _ (owned_test_iff "project" topic) p;
    not_private = ground (arith, eq_iff spec.visibility "private");
  })

  decide_sound : allowed verdict ≡ true → Entitled grant topic spec
  unfolding decide internal_test owned_test
  decide_sound h = elim (Bool-cases (internal_test topic spec)) [
    | inl i ↦ by_scope ((internal_test_iff topic spec).0 i) (ground arith)
    | inr i ↦ elim (Bool-cases (owned_test "user" topic)) [
      | inl u ↦
          as_user (refuted _ (internal_test_iff topic spec) i) ((owned_test_iff "user" topic).0 u)
            (ground arith)
      | inr u ↦ elim (Bool-cases (owned_test "organization" topic)) [
        | inl o ↦
            as_member (refuted _ (internal_test_iff topic spec) i)
              ((owned_test_iff "organization" topic).0 o) (ground arith)
        | inr o ↦ elim (Bool-cases (owned_test "project" topic)) [
          | inl p ↦
              in_project (refuted _ (internal_test_iff topic spec) i)
                ((owned_test_iff "project" topic).0 p) (ground arith)
          | inr p ↦ decide_open i u o p h
        ]
      ]
    ]
  ]

  -- The namespaces are apart, so the tests above the matching one fail.
  other_owner :
      (head other : String)
      → (head == other) ≡ false
      → owned_test head topic ≡ true
      → owned_test other topic ≡ false
  unfolding owned_test
  other_owner head other apart h =
      let same = (eq_iff _ head).0 (and-eq-true _ _ h).0 in rw (same, apart)

  decide_complete :
      Entitled grant topic spec
      → grant.operator ≡ false
      → matches_pattern topic grant.topic_patterns ≡ false
      → allowed verdict ≡ true
  unfolding decide internal_test owned_test
  decide_complete (as_operator h) n m = absurd (cc)
  decide_complete (by_pattern h) n m = absurd (cc)
  decide_complete (by_scope i h) n m = ground (arith, (internal_test_iff topic spec).1 i)
  decide_complete (as_user i u h) n m =
      ground (arith, affirmed _ (internal_test_iff topic spec) i, (owned_test_iff "user" topic).1 u)
  decide_complete (as_member i o h) n m =
      let here = (owned_test_iff "organization" topic).1 o in
      ground (
        arith,
        affirmed _ (internal_test_iff topic spec) i,
        here,
        other_owner "organization" "user" refl here,
      )
  decide_complete (in_project i p h) n m =
      let here = (owned_test_iff "project" topic).1 p in
      ground (
        arith,
        affirmed _ (internal_test_iff topic spec) i,
        here,
        other_owner "project" "user" refl here,
        other_owner "project" "organization" refl here,
      )
  decide_complete (as_public o) n m = ground (
    arith,
    affirmed _ (internal_test_iff topic spec) o.not_internal,
    affirmed _ (owned_test_iff "user" topic) o.not_user,
    affirmed _ (owned_test_iff "organization" topic) o.not_organization,
    affirmed _ (owned_test_iff "project" topic) o.not_project,
    eq_iff spec.visibility "private",
    o.not_private,
  )

  authorize_spec_sound :
      allowed (authorize_spec topic grant spec) ≡ true
      → (is_foreign spec.environment grant.environment ≡ false) × Entitled grant topic spec
  unfolding authorize_spec
  authorize_spec_sound h = elim (Bool-cases (is_foreign spec.environment grant.environment)) [
    | inl foreign ↦ absurd (ground arith)
    | inr home ↦ elim (Bool-cases grant.operator) [
      | inl op ↦ (home, as_operator op)
      | inr n ↦ elim (Bool-cases (matches_pattern topic grant.topic_patterns)) [
        | inl m ↦ (home, by_pattern m)
        | inr m ↦ (home, decide_sound (ground arith))
      ]
    ]
  ]

  authorize_spec_complete :
      is_foreign spec.environment grant.environment ≡ false
      → Entitled grant topic spec
      → allowed (authorize_spec topic grant spec) ≡ true
  unfolding authorize_spec
  authorize_spec_complete home e = ground (
    arith,
    λ (n : grant.operator ≡ false) (m : matches_pattern topic grant.topic_patterns ≡ false).
        decide_complete e n m,
  )

-- A subscription is allowed exactly when the topic has a name, its spec (the row's, or else the
-- default one) is not of another environment, and the grant is entitled: it is an operator's, or one
-- of its patterns covers the topic, or the topic is internal and it has `system:read`, or the topic
-- is not internal and names the grant's user, organization or one of its projects, or the topic is
-- in no such namespace and neither internal nor private.
pub authorize_subscription_iff :
    (topic : String) (grant : Grant) (row : Option TopicSpec)
    → (allowed (authorize_subscription topic grant row) ≡ true) ↔ (
        (is_empty topic ≡ false)
        × (is_foreign (spec_or_default topic grant row).environment grant.environment ≡ false)
        × Entitled grant topic (spec_or_default topic grant row))
unfolding authorize_subscription
authorize_subscription_iff topic grant row =
    let spec = spec_or_default topic grant row in
    (
      λ h. elim (Bool-cases (is_empty topic)) [
        | inl bare ↦ absurd (ground arith)
        | inr named ↦
            let (home, e) = authorize_spec_sound topic grant spec (ground arith) in (named, home, e)
      ],
      λ h. rw (h.0) (authorize_spec_complete topic grant spec h.1 h.2),
    )
