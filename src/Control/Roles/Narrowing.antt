-- ===== src/Control/Roles/Narrowing.antt =====
-- What the start of the service makes of the roles.
use beacn.Base.{
  ◌≡◌, refl, ap, sym, subst, ◌∙◌, Bool, true, false, ◌&&◌, ◌||◌, not, String, List, [], ◌∷◌, arith,
  elem, keep, All, Pairwise, Bool-cases, inl, inr, ◌==◌, eq_iff, if◌then◌else◌,
}
use beacn.Control.{catalogue}
use beacn.Control.Roles.{
  roles, Groups, Laws, is_none_of, define_all, missing_of, ensure_role, ensure_each, ensure_roles,
}

-- The permissions that a role is made with, if it is one of the list.
unfoldable pub defaults_of : List (String × List String) → String → List String
defaults_of [] role = []
defaults_of ((q, perms) ∷ rest) role =
    let others = defaults_of rest role in if role == q then perms else others

elem-keep :
    (held : List String) (p : String) (ps : List String)
    → elem p (keep (λ x. not (elem x held)) ps) ≡ (elem p ps && not (elem p held))
elem-keep held p [] = refl
elem-keep held p (x ∷ ps) = elim (Bool-cases (p == x)) [
  | inl same ↦
      let e : p ≡ x = (eq_iff p x).0 same in
      let agree : elem p held ≡ elem x held = ap (λ y. elem y held) e in
      ground (arith, elem-keep held p ps, same, agree)
  | inr other ↦ ground (arith, elem-keep held p ps, other)
]

elem-none : (p : String) (ps : List String) → is_none_of ps ≡ true → elem p ps ≡ false
elem-none p [] h = refl
elem-none p (x ∷ ps) h = absurd (cc)

module _ {Store : Type 0} (g : Groups Store) (laws : Laws g) where
  ensure_role-other :
      (role q : String) (perms : List String) (s : Store)
      → (role == q) ≡ false
      → g.permissions role (ensure_role g q perms s) ≡ g.permissions role s
  unfolding ensure_role
  ensure_role-other role q perms s other =
      let created = g.get_or_create q s in
      let held = g.permissions q created in
      elim (Bool-cases
        (not (is_none_of (missing_of g held perms)) && (q == "Admin" || is_none_of held))) [
          | inl adds ↦
              rw (ensure_role, adds)
                (laws.add_other q role _ created other ∙ laws.create_keeps q role s)
          | inr leaves ↦ rw (ensure_role, leaves) (laws.create_keeps q role s)
        ]

  -- The same, of what the group holds once it is there.
  ensure_role-created :
      (role p : String) (perms : List String) (s : Store)
      → elem p (g.permissions role (ensure_role g role perms s)) ≡ (
          elem p (g.permissions role (g.get_or_create role s))
          || (role == "Admin" || is_none_of (g.permissions role (g.get_or_create role s)))
            && elem p perms)
  unfolding ensure_role
  ensure_role-created role p perms s =
      let created = g.get_or_create role s in
      let held = g.permissions role created in
      let missing = missing_of g held perms in
      let lacks = elem-keep held p perms in
      elim (Bool-cases (not (is_none_of missing) && (role == "Admin" || is_none_of held))) [
        | inl adds ↦
            rw (ensure_role, adds)
              (laws.add_own role p missing created
                ∙ added (elem p perms) (elem p held) (elem p missing) (not (is_none_of missing))
                    (role == "Admin" || is_none_of held) lacks adds)
        | inr leaves ↦
            rw (ensure_role, leaves)
              (left (elem p perms) (elem p held) (elem p missing) (is_none_of missing)
                (role == "Admin" || is_none_of held) lacks leaves (elem-none p missing))
      ]
    where
      added : (e h m n c : Bool) → m ≡ (e && not h) → (n && c) ≡ true → (m || h) ≡ (h || c && e)
      added e h m n c lacks adds = ground (arith, lacks, adds)

      left :
          (e h m n c : Bool)
          → m ≡ (e && not h)
          → (not n && c) ≡ false
          → (n ≡ true → m ≡ false)
          → h ≡ (h || c && e)
      left e h m n c lacks leaves none = ground (arith, lacks, leaves, none)

  ensure_role-own :
      (role p : String) (perms : List String) (s : Store)
      → elem p (g.permissions role (ensure_role g role perms s)) ≡ (
          elem p (g.permissions role s)
          || (role == "Admin" || is_none_of (g.permissions role s)) && elem p perms)
  unfolding ensure_role
  ensure_role-own role p perms s =
      ensure_role-created role p perms s
      ∙ ap (λ h. elem p h || (role == "Admin" || is_none_of h) && elem p perms)
          (laws.create_keeps role role s)

  ensure_each-other :
      (role : String) (rest : List (String × List String)) (s : Store)
      → All (λ r. (role == r.0) ≡ false) rest
      → g.permissions role (ensure_each g rest s) ≡ g.permissions role s
  unfolding ensure_each
  ensure_each-other role [] s h = refl
  ensure_each-other role ((q, perms) ∷ rest) s h =
      ensure_each-other role rest (ensure_role g q perms s) h.1
      ∙ ensure_role-other role q perms s h.0

  ensure_each-elem :
      (rest : List (String × List String)) (role p : String) (s : Store)
      → Pairwise (λ a b. (a.0 == b.0) ≡ false) rest
      → elem p (g.permissions role (ensure_each g rest s)) ≡ (
          elem p (g.permissions role s)
          || (role == "Admin" || is_none_of (g.permissions role s))
            && elem p (defaults_of rest role))
  unfolding ensure_each defaults_of
  ensure_each-elem [] role p s different = ground arith
  ensure_each-elem ((q, perms) ∷ rest) role p s different = elim (Bool-cases (role == q)) [
    | inl same ↦
        let e : role ≡ q = (eq_iff role q).0 same in
        let apart = subst (λ x. All (λ r. (x == r.0) ≡ false) rest) (sym e) different.0 in
        rw same (
          ap (elem p) (ensure_each-other role rest (ensure_role g q perms s) apart)
          ∙ ap (λ x. elem p (g.permissions role (ensure_role g x perms s))) (sym e)
          ∙ ensure_role-own role p perms s)
    | inr other ↦ rw other (
        ensure_each-elem rest role p (ensure_role g q perms s) different.1
        ∙ ap (λ h. elem p h || (role == "Admin" || is_none_of h) && elem p (defaults_of rest role))
            (ensure_role-other role q perms s other))
  ]

  define_all-keeps :
      (ps : List String) (role : String) (s : Store)
      → g.permissions role (define_all g ps s) ≡ g.permissions role s
  define_all-keeps [] role s = refl
  define_all-keeps (p ∷ ps) role s =
      define_all-keeps ps role (g.define p s) ∙ laws.define_keeps p role s

  -- After a start of the service, a role holds what it held before, and no more, but for its default
  -- permissions: these are added to the role Admin, and to a default role that held nothing. So a role
  -- that was narrowed stays narrow, unless it was left with nothing.
  pub ensure_roles-elem :
      (role p : String) (s : Store)
      → elem p (g.permissions role (ensure_roles g s)) ≡ (
          elem p (g.permissions role s)
          || (role == "Admin" || is_none_of (g.permissions role s))
            && elem p (defaults_of roles role))
  unfolding ensure_roles
  ensure_roles-elem role p s =
      ensure_each-elem roles role p (define_all g catalogue s)
        ((refl, (refl, (refl, tt))), ((refl, (refl, tt)), ((refl, tt), (tt, tt))))
      ∙ ap (λ h. elem p h || (role == "Admin" || is_none_of h) && elem p (defaults_of roles role))
          (define_all-keeps catalogue role s)
