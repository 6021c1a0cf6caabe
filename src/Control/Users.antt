-- ===== src/Control/Users.antt =====
-- `users_create`, `users_set_active` and `users_set_role` of routes/api/control.py. The accounts and the
-- groups are the framework's: what is asked of them is an interface with its laws. The fields of a body
-- are typed, and empty or none where the body does not have them.
pub mod Membership
pub mod Tests
use Prim.Native.String
use beacn.Base.{
  ℕ, ◌≡◌, Bool, true, false, ◌&&◌, ◌||◌, not, String, code, List, [], ◌∷◌, map, Option, none, some,
  is_empty, elem, size, ltb, eqb, ◌==◌, if◌then◌else◌,
}
use beacn.Base.Strip.{strip}
use beacn.Errors.{Result, ok, err, invalid, raise, conflict, not_found}
use beacn.Control.Roles.{Groups, roles, ensure_roles}

pub record Account : Type 0 where
  pub pk : ℕ
  pub email : String
  pub is_active : Bool

-- `create_user` or `create_admin`, none where it raises ValueError; `User.get_or_none(email=…)`,
-- `user.enable()` and `user.disable(…)`; `Group.get_or_none(name=…)`, the names of `Group.of_user(user)`,
-- `remove_user` and `add_user`.
pub record AccountOps (Store : Type 0) : Type 0 where
  pub groups : Groups Store
  pub create_account : (superuser : Bool) (email password : String) → Store → Option (ℕ × Store)
  pub find_account : String → Store → Option Account
  pub set_active : Bool → ℕ → Store → Store
  pub is_group : String → Store → Bool
  pub groups_of : ℕ → Store → List String
  pub remove_user : String → ℕ → Store → Store
  pub add_user : String → ℕ → Store → Store

-- What they do to the groups of a user, and which groups there are.
pub record Laws {Store : Type 0} (o : AccountOps Store) : Type 0 where
  pub remove_lem :
      (g group : String) (v u : ℕ) (s : Store)
      → elem g (o.groups_of v (o.remove_user group u s))
        ≡ (elem g (o.groups_of v s) && not (eqb v u && g == group))
  pub add_lem :
      (g group : String) (v u : ℕ) (s : Store)
      → elem g (o.groups_of v (o.add_user group u s))
        ≡ (elem g (o.groups_of v s) || eqb v u && g == group)
  pub create_keeps :
      (superuser : Bool) (email password : String) (s s' : Store) (pk v : ℕ)
      → o.create_account superuser email password s ≡ some (pk, s')
      → o.groups_of v s' ≡ o.groups_of v s
  pub create_groups :
      (superuser : Bool) (email password g : String) (s s' : Store) (pk : ℕ)
      → o.create_account superuser email password s ≡ some (pk, s')
      → o.is_group g s' ≡ o.is_group g s
  pub define_groups :
      (p g : String) (s : Store) → o.is_group g (o.groups.define p s) ≡ o.is_group g s
  pub define_users :
      (p : String) (v : ℕ) (s : Store) → o.groups_of v (o.groups.define p s) ≡ o.groups_of v s
  pub get_or_create_groups :
      (group g : String) (s : Store)
      → o.is_group g (o.groups.get_or_create group s) ≡ (g == group || o.is_group g s)
  pub get_or_create_users :
      (group : String) (v : ℕ) (s : Store)
      → o.groups_of v (o.groups.get_or_create group s) ≡ o.groups_of v s
  pub add_permissions_groups :
      (group g : String) (ps : List String) (s : Store)
      → o.is_group g (o.groups.add_permissions group ps s) ≡ o.is_group g s
  pub add_permissions_users :
      (group : String) (ps : List String) (v : ℕ) (s : Store)
      → o.groups_of v (o.groups.add_permissions group ps s) ≡ o.groups_of v s

-- `c in s`, of one character.
abbrev pub has_char : ℕ → String → Bool
has_char c String.[] = false
has_char c (String.◌∷◌ x s) = eqb (code x) c || has_char c s

abbrev pub role_name : String × List String → String
role_name r = r.0

abbrev pub role_names : List String
role_names = map role_name roles

pub record UserBody : Type 0 where
  pub email : String
  pub password : String
  pub role : String
  pub superuser : Bool

-- What `users_create` answers with.
pub record Created : Type 0 where
  pub id : ℕ
  pub email : String
  pub role : String
  pub superuser : Bool

-- `(data.get("role") or "ReadOnly").strip()`
abbrev pub role_of : UserBody → String
role_of body = strip (if is_empty body.role then "ReadOnly" else body.role)

-- `lower` is `str.lower`.
module _ {Store : Type 0} (o : AccountOps Store) (lower : String → String) where
  abbrev pub email_of : String → String
  email_of email = lower (strip email)

  -- `for existing in await Group.of_user(user): await existing.remove_user(user)`
  unfoldable pub remove_all : List String → ℕ → Store → Store
  remove_all [] u s = s
  remove_all (g ∷ gs) u s = remove_all gs u (o.remove_user g u s)

  unfoldable pub set_role : String → ℕ → Store → Store
  set_role role u s = o.add_user role u (remove_all (o.groups_of u s) u s)

  -- The checks of `users_create`.
  unfoldable pub check_user : UserBody → Result UserBody
  check_user body =
      if not (has_char b'@' (email_of body.email))
      then invalid "a valid email is required"
      else if not (elem (role_of body) role_names)
      then invalid "role must be one of Admin, Operator, Developer, ReadOnly"
      else if not body.superuser && ltb (size body.password) 10
      then invalid "password must be at least 10 characters"
      else ok body

  -- Behind the creation of the row.
  abbrev pub with_group : UserBody → ℕ → Store → Store
  with_group body u s = if o.is_group (role_of body) s then set_role (role_of body) u s else s

  unfoldable pub create_checked : UserBody → Store → Result Created × Store
  create_checked body s =
      elim (o.create_account body.superuser (email_of body.email) body.password s) [
        | none ↦ (raise conflict "the account cannot be created", s)
        | some (pk, s') ↦ (
          ok (record {
            id = pk;
            email = email_of body.email;
            role = role_of body;
            superuser = body.superuser;
          }),
          with_group body pk s',
        )
      ]

  -- `users_create(ctx)`
  unfoldable pub users_create : UserBody → Store → Result Created × Store
  users_create body s =
      let ready = ensure_roles o.groups s in
      elim (check_user body) [ err e ↦ (err e, ready) | ok checked ↦ create_checked body ready ]

  -- `users_set_active(ctx)`, by the operator `actor`.
  unfoldable pub users_set_active :
      (actor : ℕ) (email : String) (active : Bool) → Store → Result Bool × Store
  users_set_active actor email active s = elim (o.find_account (email_of email) s) [
    | none ↦ (raise not_found "no such user", s)
    | some user ↦
        if eqb user.pk actor
        then (raise conflict "you cannot disable your own account", s)
        else (ok active, o.set_active active user.pk s)
  ]

  -- `users_set_role(ctx)`
  unfoldable pub users_set_role : (email role : String) → Store → Result String × Store
  users_set_role email role s = elim (o.find_account (email_of email) s) [
    | none ↦ (raise not_found "no such user or role", s)
    | some user ↦
        if o.is_group (strip role) s
        then (ok (strip role), set_role (strip role) user.pk s)
        else (raise not_found "no such user or role", s)
  ]
