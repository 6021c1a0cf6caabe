-- ===== src/Topics.antt =====
-- domain/topics.py: who may subscribe to a topic. `frozenset` and `tuple` fields are lists, of which
-- the code asks only membership; an attribute that may be None is an `Option`.
pub mod Glob
pub mod Authorization
pub mod Claims
mod Tests
use Prim.Native.String.{[], ◌∷◌}
use beacn.Base.{
  Bool, true, false, ◌||◌, ◌&&◌, not, String, code, List, Option, none, some, eqb, any, elem,
  is_empty, ◌==◌, if◌then◌else◌,
}
use beacn.Topics.Glob.{fnmatchcase}

pub record Grant : Type 0 where
  pub environment : String
  pub user_id : Option String
  pub organization_id : Option String
  pub project_ids : List String
  pub scopes : List String
  pub topic_patterns : List String
  pub operator : Bool
  pub producer_id : Option String

pub record TopicSpec : Type 0 where
  pub name : String
  pub visibility : String
  pub environment : Option String

pub data Decision : Type 0 where
  allow : Decision
  deny : (reason decision_code : String) → Decision

-- `bool(decision)`
abbrev pub allowed : Decision → Bool
allowed allow = true
allowed (deny reason decision_code) = false

unfoldable pub has_scope : Grant → String → Bool
has_scope g scope = elem scope g.scopes || elem "*" g.scopes || g.operator

-- `topic.split(":", 1)`, where the topic has a colon.
abbrev pub split_colon : String → Option (String × String)
split_colon [] = none
split_colon (c ∷ s) =
    if eqb (code c) b':'
    then some ("", s)
    else elim (split_colon s) [ none ↦ none | some (head, tail) ↦ some (c ∷ head, tail) ]

abbrev whole_or_split : String → Option (String × String) → String × Option String
whole_or_split topic none = (topic, none)
whole_or_split topic (some (head, tail)) = (head, some tail)

unfoldable pub namespace : String → String × Option String
namespace topic = whole_or_split topic (split_colon topic)

-- An optional text in a condition: neither None nor empty.
abbrev pub is_truthy : Option String → Bool
is_truthy none = false
is_truthy (some s) = not (is_empty s)

-- `ident == claim`, where `ident` is a text.
abbrev pub is_claim : Option String → Option String → Bool
is_claim (some ident) (some claim) = ident == claim
is_claim _ _ = false

abbrev pub in_claims : Option String → List String → Bool
in_claims none claims = false
in_claims (some ident) claims = elem ident claims

abbrev pub private_heads : List String
private_heads = List.◌∷◌ "user" (
    List.◌∷◌ "organization"
      (List.◌∷◌ "project" (List.◌∷◌ "connection" (List.◌∷◌ "session" List.[]))))

abbrev pub is_system : String → Bool
is_system head = head == "system" || head == "audit"

unfoldable pub default_spec : String → String → TopicSpec
unfolding namespace
default_spec topic environment =
    let head = (namespace topic).0 in
    let ident = (namespace topic).1 in
    if is_system head
    then record { name = topic; visibility = "internal"; environment = some environment }
    else if elem head private_heads && is_truthy ident
    then record { name = topic; visibility = "private"; environment = some environment }
    else record { name = topic; visibility = "public"; environment = some environment }

unfoldable pub matches_pattern : String → List String → Bool
unfolding fnmatchcase
matches_pattern topic patterns = any (fnmatchcase topic) patterns

-- `spec.environment and spec.environment != grant.environment`
abbrev pub is_foreign : Option String → String → Bool
is_foreign none environment = false
is_foreign (some own) environment = not (is_empty own) && not (own == environment)

abbrev when : Bool → String → Decision
when true reason = allow
when false reason = deny reason "forbidden"

-- The part of `authorize_subscription` behind the tests that do not look into the topic.
decide : String → Option String → Grant → TopicSpec → Decision
decide head ident grant spec =
    if spec.visibility == "internal" || is_system head
    then when (has_scope grant "system:read") "system topics require system:read"
    else if head == "user" && is_truthy ident
    then when (is_claim ident grant.user_id) "not your user topic"
    else if head == "organization" && is_truthy ident
    then when (is_claim ident grant.organization_id) "not your organization"
    else if head == "project" && is_truthy ident
    then when (in_claims ident grant.project_ids) "project not in your grant"
    else if spec.visibility == "private"
    then deny "private topic requires an explicit grant" "forbidden"
    else allow

-- The tests of `authorize_subscription` once the spec is known.
authorize_spec : String → Grant → TopicSpec → Decision
unfolding decide matches_pattern namespace
authorize_spec topic grant spec =
    if is_foreign spec.environment grant.environment
    then deny "topic belongs to a different environment" "forbidden"
    else if grant.operator
    then allow
    else if matches_pattern topic grant.topic_patterns
    then allow
    else decide (namespace topic).0 (namespace topic).1 grant spec

-- `spec or default_spec(topic, grant.environment)`
abbrev pub spec_or_default : String → Grant → Option TopicSpec → TopicSpec
spec_or_default topic grant none = default_spec topic grant.environment
spec_or_default topic grant (some spec) = spec

pub authorize_subscription : String → Grant → Option TopicSpec → Decision
unfolding authorize_spec default_spec
authorize_subscription topic grant spec =
    if is_empty topic
    then deny "empty topic" "invalid"
    else authorize_spec topic grant (spec_or_default topic grant spec)
