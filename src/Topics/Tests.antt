-- ===== src/Topics/Tests.antt =====
-- Subscriptions that are allowed and refused, and the theorems at them.
use beacn.Base.{◌≡◌, refl, ◌↔◌, true, false, [], ◌∷◌, none, some, is_empty}
use beacn.Topics.{
  Grant, TopicSpec, allow, deny, allowed, has_scope, default_spec, is_foreign,
  authorize_subscription,
}
use beacn.Topics.Glob.{fnmatchcase}
use beacn.Topics.Authorization.{Entitled, authorize_subscription_iff}

abbrev ann : Grant
ann = record {
  environment = "production";
  user_id = some "42";
  organization_id = some "acme";
  project_ids = "p1" ∷ [];
  scopes = "events:read" ∷ [];
  topic_patterns = "orders.[a-c!]*" ∷ [];
  operator = false;
  producer_id = none;
}

abbrev wild : Grant
wild = record ann { topic_patterns = "*" ∷ [] }

abbrev pinned : TopicSpec
pinned = record { name = "billing"; visibility = "private"; environment = some "production" }

abbrev foreign : TopicSpec
foreign = record { name = "billing"; visibility = "public"; environment = some "staging" }

globs :
    (fnmatchcase "orders.created" "orders.[a-c!]*" ≡ true)
    × (fnmatchcase "orders.zapped" "orders.[a-c!]*" ≡ false)
    × (fnmatchcase "a]" "?[]]" ≡ true)
    × (fnmatchcase "ax" "a[!x-z]" ≡ false)
    × (fnmatchcase "a[" "a[" ≡ true)
unfolding fnmatchcase
globs = (refl, refl, refl, refl, refl)

decisions :
    (authorize_subscription "" ann none ≡ deny "empty topic" "invalid")
    × (authorize_subscription "payments" ann none ≡ allow)
    × (authorize_subscription "user:42" ann none ≡ allow)
    × (authorize_subscription "user:43" ann none ≡ deny "not your user topic" "forbidden")
    × (authorize_subscription "organization:acme" ann none ≡ allow)
    × (authorize_subscription "project:p2" ann none ≡ deny "project not in your grant" "forbidden")
    × (authorize_subscription "system" ann none
        ≡ deny "system topics require system:read" "forbidden")
    × (authorize_subscription "billing" ann (some pinned)
        ≡ deny "private topic requires an explicit grant" "forbidden")
    × (authorize_subscription "billing" wild (some foreign)
        ≡ deny "topic belongs to a different environment" "forbidden")
unfolding authorize_subscription has_scope
decisions = (refl, refl, refl, refl, refl, refl, refl, refl, refl)

authorize_subscription_iff_example :
    (allowed (authorize_subscription "user:42" ann none) ≡ true) ↔ (
      (is_empty "user:42" ≡ false)
      × (is_foreign (default_spec "user:42" "production").environment "production" ≡ false)
      × Entitled ann "user:42" (default_spec "user:42" "production"))
authorize_subscription_iff_example = authorize_subscription_iff "user:42" ann none
