-- ===== src/Auth/Issue/Fresh.antt =====
-- The search for a prefix ends.
use beacn.Base.{
  ◌<◌, ◌≡◌, refl, sym, ◌∙◌, true, false, not, String, List, [], ◌∷◌, some, arith, any, keep, length,
  All, Pairwise, Bool-cases, inl, inr, ◌==◌, eq_iff, length-keep,
}
use beacn.Auth.{ApiKey, has_prefix}
use beacn.Auth.Issue.{fresh_prefix}

-- The keys that have another prefix.
without : String → List ApiKey → List ApiKey
without drawn keys = keep (λ key. not (has_prefix drawn key)) keys

length-without :
    (drawn : String) (keys : List ApiKey)
    → any (has_prefix drawn) keys ≡ true
    → length (without drawn keys) < length keys
unfolding without
length-without drawn [] h = absurd (cc)
length-without drawn (key ∷ keys) h =
    ground (arith, length-keep (λ key. not (has_prefix drawn key)) keys, length-without drawn keys)

any-without :
    (drawn other : String) (keys : List ApiKey)
    → (drawn == other) ≡ false
    → any (has_prefix other) (without drawn keys) ≡ any (has_prefix other) keys
unfolding without
any-without drawn other [] h = refl
any-without drawn other (key ∷ keys) h = ground (
  arith,
  any-without drawn other keys h,
  eq_iff key.prefix drawn,
  eq_iff key.prefix other,
  eq_iff drawn other,
)

fresh-without :
    (drawn : String) (draws : List String) (keys : List ApiKey)
    → All (λ other. (drawn == other) ≡ false) draws
    → fresh_prefix draws (without drawn keys) ≡ fresh_prefix draws keys
unfolding fresh_prefix
fresh-without drawn [] keys h = refl
fresh-without drawn (other ∷ draws) keys h =
    rw (any-without drawn other keys h.0, fresh-without drawn draws keys h.1) refl

-- Among more different draws than there are keys, the search for a prefix that no key has finds one.
pub fresh_prefix-ends :
    (draws : List String) (keys : List ApiKey)
    → Pairwise (λ drawn other. (drawn == other) ≡ false) draws
    → length keys < length draws
    → (prefix : String) × (fresh_prefix draws keys ≡ some prefix)
unfolding fresh_prefix
fresh_prefix-ends [] keys different more = absurd (omega arith)
fresh_prefix-ends (drawn ∷ draws) keys different more =
    elim (Bool-cases (any (has_prefix drawn) keys)) [
      | inl taken ↦
          let less = length-without drawn keys taken in
          let (prefix, found) =
            fresh_prefix-ends draws (without drawn keys) different.1 (omega (arith, less, more)) in
          (prefix, rw taken (sym (fresh-without drawn draws keys different.0) ∙ found))
      | inr free ↦ (drawn, rw free refl)
    ]

-- What the search finds, no key has.
pub fresh_prefix-free :
    (draws : List String) (keys : List ApiKey) (prefix : String)
    → fresh_prefix draws keys ≡ some prefix
    → any (has_prefix prefix) keys ≡ false
unfolding fresh_prefix
fresh_prefix-free [] keys prefix h = absurd (cc)
fresh_prefix-free (drawn ∷ draws) keys prefix h = elim (Bool-cases (any (has_prefix drawn) keys)) [
  | inl taken ↦ fresh_prefix-free draws keys prefix (rw taken at h)
  | inr free ↦
      let found : some drawn ≡ some prefix = rw free at h in
      let same : drawn ≡ prefix = cc in rw (sym same) free
]
