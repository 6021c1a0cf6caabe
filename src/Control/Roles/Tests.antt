-- ===== src/Control/Roles/Tests.antt =====
-- Groups in a list, and a start of the service.
use beacn.Base.{
  some, ◌≡◌, refl, ap, ◌∙◌, false, ◌||◌, String, List, [], ◌∷◌, ◌++◌, or_default, elem, ◌==◌,
  eq_iff, eq_refl, arith,
}
use beacn.Base.Dict.{Dict, lookup, insert, lookup-insert}
use beacn.Control.Roles.{Groups, Laws, ensure_roles}
use beacn.Control.Roles.Narrowing.{defaults_of, ensure_roles-elem}

-- A stand-in for the framework: what each group holds.
abbrev held : String → Dict (List String) → List String
held role s = or_default (lookup role s) []

abbrev table : Groups (Dict (List String))
table = record {
  define = λ p s. s;
  get_or_create = λ q s. s;
  permissions = held;
  add_permissions = λ q ps s. insert q (ps ++ held q s) s;
}

elem-append : (p : String) (ps qs : List String) → elem p (ps ++ qs) ≡ (elem p ps || elem p qs)
elem-append p [] qs = refl
elem-append p (q ∷ ps) qs = ground (arith, elem-append p ps qs)

table-other :
    (q role : String) (ps : List String) (s : Dict (List String))
    → (role == q) ≡ false
    → held role (insert q (ps ++ held q s) s) ≡ held role s
table-other q role ps s other =
    let apart : (q == role) ≡ false = ground (arith, other, eq_iff role q, eq_iff q role) in
    let same : lookup role (insert q (ps ++ held q s) s) ≡ lookup role s =
      lookup-insert q role (ps ++ held q s) s ∙ rw apart refl in
    ap (λ o. or_default o []) same

table-own :
    (role p : String) (ps : List String) (s : Dict (List String))
    → elem p (held role (insert role (ps ++ held role s) s)) ≡ (elem p ps || elem p (held role s))
table-own role p ps s =
    let same : lookup role (insert role (ps ++ held role s) s) ≡ some (ps ++ held role s) =
      lookup-insert role role (ps ++ held role s) s ∙ rw (eq_refl role) refl in
    ap (λ o. elem p (or_default o [])) same ∙ elem-append p ps (held role s)

table-Laws : Laws table
table-Laws = record {
  define_keeps = λ p role s. refl;
  create_keeps = λ q role s. refl;
  add_other = λ q role ps s other. table-other q role ps s other;
  add_own = λ role p ps s. table-own role p ps s;
}

abbrev narrowed : Dict (List String)
narrowed = ("Operator", "topics.read" ∷ []) ∷ []

ensure_roles-elem_example :
    elem "apikeys.write" (held "Operator" (ensure_roles table narrowed)) ≡ false
unfolding defaults_of lookup
ensure_roles-elem_example = ensure_roles-elem table table-Laws "Operator" "apikeys.write" narrowed
