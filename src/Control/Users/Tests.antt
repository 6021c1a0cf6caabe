-- ===== src/Control/Users/Tests.antt =====
-- A small framework of accounts, and an operator that is created in it.
use beacn.Base.{
  ℕ, ◌+◌, ◌≡◌, refl, ap, sym, true, false, ◌&&◌, ◌||◌, not, String, List, [], ◌∷◌, Option, none,
  some, elem, eqb, keep, ◌==◌, arith, eq_iff, if◌then◌else◌,
}
use beacn.Base.Strip.{strip}
use beacn.Errors.{ok}
use beacn.Control.Roles.{Groups, ensure_roles, ensure_role, ensure_each}
use beacn.Control.Users.{
  AccountOps, Laws, UserBody, Created, check_user, create_checked, users_create,
}
use beacn.Control.Users.Membership.{IsFit, Moves, users_create-elem}

record Small : Type 0 where
  groups : List String
  members : ℕ → List String
  next_pk : ℕ

abbrev small_groups : Groups Small
small_groups = record {
  define = λ p s. s;
  get_or_create = λ group s. record s { groups = group ∷ s.groups };
  permissions = λ group s. [];
  add_permissions = λ group ps s. s;
}

abbrev small : AccountOps Small
small = record {
  groups = small_groups;
  create_account =
      λ superuser email password s. some (s.next_pk, record s { next_pk = s.next_pk + 1 });
  find_account = λ email s. some (record { pk = 7; email = email; is_active = true });
  set_active = λ active u s. s;
  is_group = λ group s. elem group s.groups;
  groups_of = λ u s. s.members u;
  remove_user = λ group u s. record s {
    members = λ v. if eqb v u then keep (λ g. not (g == group)) (s.members v) else s.members v;
  };
  add_user =
      λ group u s. record s { members = λ v. if eqb v u then group ∷ s.members v else s.members v };
}

elem-keep :
    (g group : String) (gs : List String)
    → elem g (keep (λ h. not (h == group)) gs) ≡ (elem g gs && not (g == group))
elem-keep g group [] = refl
elem-keep g group (h ∷ gs) =
    ground (arith, eq_iff h group, eq_iff g group, eq_iff g h, elem-keep g group gs)

small_remove :
    (g group : String) (v u : ℕ) (s : Small)
    → elem g (small.groups_of v (small.remove_user group u s))
      ≡ (elem g (small.groups_of v s) && not (eqb v u && g == group))
small_remove g group v u s = ground (arith, elem-keep g group (s.members v))

small_add :
    (g group : String) (v u : ℕ) (s : Small)
    → elem g (small.groups_of v (small.add_user group u s))
      ≡ (elem g (small.groups_of v s) || eqb v u && g == group)
small_add g group v u s = ground arith

second :
    {A B : Type 0} (a c : A) (b d : B)
    → ◌≡◌ {A = Option (A × B)} (some (a, b)) (some (c, d))
    → b ≡ d
second {A} {B} a c b d h = ap (λ (o : Option (A × B)). elim o [ none ↦ b | some p ↦ p.1 ]) h

small-Laws : Laws small
small-Laws = record {
  remove_lem = small_remove;
  add_lem = small_add;
  create_keeps = λ superuser email password s s' pk v h.
      ap (λ (t : Small). t.members v) (sym (second s.next_pk pk _ s' h));
  create_groups = λ superuser email password g s s' pk h.
      ap (λ (t : Small). elem g t.groups) (sym (second s.next_pk pk _ s' h));
  define_groups = λ p g s. refl;
  define_users = λ p v s. refl;
  get_or_create_groups = λ group g s. refl;
  get_or_create_users = λ group v s. refl;
  add_permissions_groups = λ group g ps s. refl;
  add_permissions_users = λ group ps v s. refl;
}

abbrev empty : Small
empty = record { groups = []; members = λ v. "Guest" ∷ []; next_pk = 3 }

abbrev same : String → String
same s = s

abbrev ada : UserBody
ada = record {
  email = " ada@beacn ";
  password = "0123456789";
  role = "Developer";
  superuser = false;
}

abbrev ada_created : Created
ada_created = record { id = 3; email = "ada@beacn"; role = "Developer"; superuser = false }

created_run : (users_create small same ada empty).0 ≡ ok ada_created
unfolding users_create check_user create_checked strip ensure_roles ensure_each ensure_role
created_run = refl

users_create-elem_example :
    IsFit small same small-Laws ada
    × Moves small same small-Laws ada ada_created "Guest" 3 empty
        (ensure_roles small.groups empty)
        (users_create small same ada empty).1
users_create-elem_example =
    users_create-elem small same small-Laws ada ada_created "Guest" 3 empty created_run
