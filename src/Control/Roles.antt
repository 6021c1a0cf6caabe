-- ===== src/Control/Roles.antt =====
-- app/authz.py: the default roles, and `ensure_roles`, which every start of the service runs. Groups and
-- permissions are rows of the framework: what is asked of them is an interface with its laws.
pub mod Narrowing
pub mod Tests
use Prim.Native.String
use beacn.Base.{
  ◌≡◌, Bool, true, false, ◌&&◌, ◌||◌, not, String, List, [], ◌∷◌, ◌++◌, elem, keep, ◌==◌,
  if◌then◌else◌,
}
use beacn.Control.{catalogue}

-- `p.endswith(suffix)`
abbrev pub ends_with : String → String → Bool
ends_with suffix Prim.Native.String.[] = "" == suffix
ends_with suffix (Prim.Native.String.◌∷◌ c s) =
    let rest = ends_with suffix s in Prim.Native.String.◌∷◌ c s == suffix || rest

abbrev pub read_only : List String
read_only = keep (ends_with ".read") catalogue

abbrev pub developer : List String
developer = read_only ++ "events.publish" ∷ "events.replay" ∷ "subscriptions.write" ∷ []

abbrev pub operator : List String
operator =
    developer ++ "topics.write" ∷ "producers.write" ∷ "apikeys.write" ∷ "connections.write" ∷ []

-- `ROLES`
abbrev pub roles : List (String × List String)
roles =
    ("Admin", catalogue)
    ∷ ("Operator", operator)
    ∷ ("Developer", developer)
    ∷ ("ReadOnly", read_only)
    ∷ []

-- `Permission.define`, `Group.get_or_create`, `get_permissions` and `add_permissions`.
pub record Groups (Store : Type 0) : Type 0 where
  pub define : String → Store → Store
  pub get_or_create : String → Store → Store
  pub permissions : String → Store → List String
  pub add_permissions : String → List String → Store → Store

-- What they do: only `add_permissions` changes what a group holds, and that of its own group.
pub record Laws {Store : Type 0} (g : Groups Store) : Type 0 where
  pub define_keeps :
      (p role : String) (s : Store) → g.permissions role (g.define p s) ≡ g.permissions role s
  pub create_keeps :
      (q role : String) (s : Store)
      → g.permissions role (g.get_or_create q s) ≡ g.permissions role s
  pub add_other :
      (q role : String) (ps : List String) (s : Store)
      → (role == q) ≡ false
      → g.permissions role (g.add_permissions q ps s) ≡ g.permissions role s
  pub add_own :
      (role p : String) (ps : List String) (s : Store)
      → elem p (g.permissions role (g.add_permissions role ps s))
        ≡ (elem p ps || elem p (g.permissions role s))

abbrev pub is_none_of : List String → Bool
is_none_of [] = true
is_none_of (p ∷ ps) = false

module _ {Store : Type 0} (g : Groups Store) where
  abbrev pub define_all : List String → Store → Store
  define_all [] s = s
  define_all (p ∷ ps) s = define_all ps (g.define p s)

  abbrev pub missing_of : List String → List String → List String
  missing_of held perms = keep (λ p. not (elem p held)) perms

  -- One turn of the loop over the roles.
  unfoldable pub ensure_role : String → List String → Store → Store
  ensure_role role perms s =
      let created = g.get_or_create role s in
      let held = g.permissions role created in
      if not (is_none_of (missing_of held perms)) && (role == "Admin" || is_none_of held)
      then g.add_permissions role (missing_of held perms) created
      else created

  unfoldable pub ensure_each : List (String × List String) → Store → Store
  ensure_each [] s = s
  ensure_each ((role, perms) ∷ rest) s = ensure_each rest (ensure_role role perms s)

  -- `ensure_roles()`
  unfoldable pub ensure_roles : Store → Store
  ensure_roles s = ensure_each roles (define_all catalogue s)
