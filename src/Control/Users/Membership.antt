-- ===== src/Control/Users/Membership.antt =====
-- An operator whose role is set is in the group of that role, in no other, and nobody else is moved.
use beacn.Base.{
  ℕ, subst, ◌≡◌, refl, ap, sym, ◌∙◌, Bool, true, false, ◌&&◌, ◌||◌, not, String, List, [], ◌∷◌, map,
  Option, none, some, elem, eqb, ◌==◌, arith, Bool-cases, inl, inr, if◌then◌else◌, size, ltb, ◌≤◌,
  ltb-false→le,
}
use beacn.Errors.{Failure, Result, ok, err, raise, conflict, ok-injective}
use beacn.Control.{catalogue}
use beacn.Control.Roles.{roles, ensure_role, ensure_each, ensure_roles, define_all, missing_of}
use beacn.Control.Users.{
  AccountOps, Laws, UserBody, Created, has_char, role_name, role_names, role_of, email_of,
  remove_all, set_role, check_user, create_checked, with_group, users_create,
}

guard_passed :
    {A : Type 0} (b : Bool) (e : Failure) (r : Result A) {a : A}
    → (if b then err e else r) ≡ ok a
    → (b ≡ false) × (r ≡ ok a)
guard_passed true e r h = absurd (cc)
guard_passed false e r h = (refl, h)

not-false : (b : Bool) → not b ≡ false → b ≡ true
not-false true h = refl
not-false false h = absurd (cc)

module _ {Store : Type 0} (o : AccountOps Store) (lower : String → String) (laws : Laws o) where
  remove_all-elem :
      (gs : List String) (g : String) (v u : ℕ) (s : Store)
      → elem g (o.groups_of v (remove_all o lower gs u s))
        ≡ (elem g (o.groups_of v s) && not (eqb v u && elem g gs))
  unfolding remove_all
  remove_all-elem [] g v u s = ground arith
  remove_all-elem (h ∷ gs) g v u s =
      ground (arith, remove_all-elem gs g v u (o.remove_user h u s), laws.remove_lem g h v u s)

  eqb-eq : (v u : ℕ) → eqb v u ≡ true → v ≡ u
  eqb-eq v u h = ground arith

  set_role-own :
      (role g : String) (u : ℕ) (s : Store)
      → elem g (o.groups_of u (set_role o lower role u s)) ≡ g == role
  unfolding set_role
  set_role-own role g u s = ground (
    arith,
    remove_all-elem (o.groups_of u s) g u u s,
    laws.add_lem g role u u (remove_all o lower (o.groups_of u s) u s),
  )

  -- Who is in a group once a role is set.
  pub set_role-elem :
      (role g : String) (v u : ℕ) (s : Store)
      → elem g (o.groups_of v (set_role o lower role u s))
        ≡ (if eqb v u then g == role else elem g (o.groups_of v s))
  unfolding set_role
  set_role-elem role g v u s = elim (Bool-cases (eqb v u)) [
    | inl same ↦ rw same (
        ap (λ w. elem g (o.groups_of w (set_role o lower role u s))) (eqb-eq v u same)
        ∙ set_role-own role g u s)
    | inr other ↦ ground (
      arith,
      other,
      remove_all-elem (o.groups_of u s) g v u s,
      laws.add_lem g role v u (remove_all o lower (o.groups_of u s) u s),
    )
  ]

  -- `ensure_roles` leaves everybody's groups, and there is a group for each role behind it.
  ensure_role-users :
      (role : String) (perms : List String) (v : ℕ) (s : Store)
      → o.groups_of v (ensure_role o.groups role perms s) ≡ o.groups_of v s
  unfolding ensure_role
  ensure_role-users role perms v s =
      let created = o.groups.get_or_create role s in
      ground (
        arith,
        laws.get_or_create_users role v s,
        laws.add_permissions_users role
            (missing_of o.groups (o.groups.permissions role created) perms) v created,
      )

  ensure_role-groups :
      (role : String) (perms : List String) (g : String) (s : Store)
      → o.is_group g (ensure_role o.groups role perms s) ≡ (g == role || o.is_group g s)
  unfolding ensure_role
  ensure_role-groups role perms g s =
      let created = o.groups.get_or_create role s in
      ground (
        arith,
        laws.get_or_create_groups role g s,
        laws.add_permissions_groups role g
            (missing_of o.groups (o.groups.permissions role created) perms) created,
      )

  ensure_each-users :
      (rs : List (String × List String)) (v : ℕ) (s : Store)
      → o.groups_of v (ensure_each o.groups rs s) ≡ o.groups_of v s
  unfolding ensure_each
  ensure_each-users [] v s = refl
  ensure_each-users ((role, perms) ∷ rs) v s =
      ensure_each-users rs v (ensure_role o.groups role perms s) ∙ ensure_role-users role perms v s

  ensure_each-groups :
      (rs : List (String × List String)) (g : String) (s : Store)
      → (elem g (map role_name rs) || o.is_group g s) ≡ true
      → o.is_group g (ensure_each o.groups rs s) ≡ true
  unfolding ensure_each
  ensure_each-groups [] g s h = h
  ensure_each-groups ((role, perms) ∷ rs) g s h =
      ensure_each-groups rs g (ensure_role o.groups role perms s)
        (ground (arith, ensure_role-groups role perms g s))

  define_all-users :
      (ps : List String) (v : ℕ) (s : Store)
      → o.groups_of v (define_all o.groups ps s) ≡ o.groups_of v s
  define_all-users [] v s = refl
  define_all-users (p ∷ ps) v s =
      define_all-users ps v (o.groups.define p s) ∙ laws.define_users p v s

  ensure_roles-users :
      (v : ℕ) (s : Store) → o.groups_of v (ensure_roles o.groups s) ≡ o.groups_of v s
  unfolding ensure_roles
  ensure_roles-users v s =
      ensure_each-users roles v (define_all o.groups catalogue s) ∙ define_all-users catalogue v s

  ensure_roles-groups :
      (g : String) (s : Store)
      → elem g role_names ≡ true
      → o.is_group g (ensure_roles o.groups s) ≡ true
  unfolding ensure_roles
  ensure_roles-groups g s h =
      ensure_each-groups roles g (define_all o.groups catalogue s) (rw h refl)

  -- What a request must be for an account to be created.
  pub record IsFit (body : UserBody) : Type 0 where
    pub email_fits : has_char b'@' (email_of o lower body.email) ≡ true
    pub role_fits : elem (role_of body) role_names ≡ true
    pub password_fits : body.superuser ≡ false → 10 ≤ size body.password

  check_user-IsFit : (body checked : UserBody) → check_user o lower body ≡ ok checked → IsFit body
  unfolding check_user
  check_user-IsFit body checked h =
      let (email, h1) = guard_passed (not (has_char b'@' (email_of o lower body.email))) _ _ h in
      let (role, h2) = guard_passed (not (elem (role_of body) role_names)) _ _ h1 in
      let (password, _) = guard_passed (not body.superuser && ltb (size body.password) 10) _ _ h2 in
      record {
        email_fits = not-false _ email;
        role_fits = not-false _ role;
        password_fits = λ ordinary.
            ltb-false→le (size body.password) 10
              (ap (λ b. not b && ltb (size body.password) 10) (sym ordinary) ∙ password);
      }

  -- The account that the framework made for the request, in the group of the role that was asked for
  -- and in no other; nobody else is moved. The answer is about that account and that role.
  pub record Moves (body : UserBody) (created : Created) (g : String) (v : ℕ) (s ready s' : Store)
      : Type 0 where
    pub made : Store
    pub is_made :
        o.create_account body.superuser (email_of o lower body.email) body.password ready
        ≡ some (created.id, made)
    pub answers_role : created.role ≡ role_of body
    pub answers_email : created.email ≡ email_of o lower body.email
    pub answers_superuser : created.superuser ≡ body.superuser
    pub moved :
        elem g (o.groups_of v s')
        ≡ (if eqb v created.id then g == role_of body else elem g (o.groups_of v s))

  create_checked-Moves :
      (body : UserBody) (created : Created) (g : String) (v : ℕ) (s : Store)
      → o.is_group (role_of body) s ≡ true
      → (create_checked o lower body s).0 ≡ ok created
      → Moves body created g v s s (create_checked o lower body s).1
  unfolding create_checked
  create_checked-Moves body created g v s there h =
      go (o.create_account body.superuser (email_of o lower body.email) body.password s) refl h
    where
      answer : ℕ → Created
      answer pk = record {
        id = pk;
        email = email_of o lower body.email;
        role = role_of body;
        superuser = body.superuser;
      }

      go :
          (made : Option (ℕ × Store))
          → o.create_account body.superuser (email_of o lower body.email) body.password s ≡ made
          → (elim made as (λ x. Result Created × Store) [
            | none ↦ (raise conflict "the account cannot be created", s)
            | some (pk, s') ↦ (ok (answer pk), with_group o lower body pk s')
          ]).0
            ≡ ok created
          → Moves body created g v s s
              (elim made as (λ x. Result Created × Store) [
                | none ↦ (raise conflict "the account cannot be created", s)
                | some (pk, s') ↦ (ok (answer pk), with_group o lower body pk s')
              ]).1
      go none e h = absurd (cc)
      go (some (pk, s')) e h =
          let same : answer pk ≡ created = ok-injective h in
          let group =
            laws.create_groups body.superuser (email_of o lower body.email) body.password
              (role_of body) s s' pk e
            ∙ there in
          let users =
            laws.create_keeps body.superuser (email_of o lower body.email) body.password s s' pk v
              e in
          let moved : Moves body (answer pk) g v s s (with_group o lower body pk s') = record {
            made = s';
            is_made = e;
            answers_role = refl;
            answers_email = refl;
            answers_superuser = refl;
            moved = rw group (
                set_role-elem (role_of body) g v pk s'
                ∙ ap (λ gs. if eqb v pk then g == role_of body else elem g gs) users);
          } in
          subst (λ c. Moves body c g v s s (with_group o lower body pk s')) same moved

  -- An account is created only with an email that holds "@", one of the roles, and, unless it is a
  -- superuser's, a password of ten characters or more. Then the account is
  -- the one that the framework makes for that email and password, as a superuser or not as asked, it
  -- is in the group of the role that was asked for, and in no other, everybody else is in the groups
  -- they were in, and the answer names the account and the role. The framework keeps its laws of
  -- accounts and groups.
  pub users_create-elem :
      (body : UserBody) (created : Created) (g : String) (v : ℕ) (s : Store)
      → (users_create o lower body s).0 ≡ ok created
      → IsFit body
        × Moves body created g v s (ensure_roles o.groups s) (users_create o lower body s).1
  unfolding users_create
  users_create-elem body created g v s h = go (check_user o lower body) refl h
    where
      ready : Store
      ready = ensure_roles o.groups s

      go :
          (checked : Result UserBody)
          → check_user o lower body ≡ checked
          → (elim checked as (λ x. Result Created × Store) [
            | err e ↦ (err e, ready)
            | ok c ↦ create_checked o lower body ready
          ]).0
            ≡ ok created
          → IsFit body
            × Moves body created g v s ready
                (elim checked as (λ x. Result Created × Store) [
                  | err e ↦ (err e, ready)
                  | ok c ↦ create_checked o lower body ready
                ]).1
      go (err e) k h = absurd (cc)
      go (ok c) k h =
          let fit = check_user-IsFit body c k in
          let moved =
            create_checked-Moves body created g v ready
              (ensure_roles-groups (role_of body) s fit.role_fits) h in
          (
            fit,
            record {
              made = moved.made;
              is_made = moved.is_made;
              answers_role = moved.answers_role;
              answers_email = moved.answers_email;
              answers_superuser = moved.answers_superuser;
              moved =
                  moved.moved
                  ∙ ap (λ gs. if eqb v created.id then g == role_of body else elem g gs)
                      (ensure_roles-users v s);
            },
          )
