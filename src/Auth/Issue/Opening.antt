-- ===== src/Auth/Issue/Opening.antt =====
-- An issued key opens, a revoked one does not, and a rotation changes the one for the other.
use Prim.Native.String
use Prim.Native.String.{[], ◌∷◌}
use text.Mathlib.TextLemmas.{nil-append, cons-append}
use beacn.Base.{
  ◌+◌, ◌≡◌, refl, ap, sym, subst, ◌∙◌, Bool, true, false, String, List, ◌++◌, Option, none, some,
  arith, any, find, find-last, is_empty, eq_iff, eq_refl, Option-cases, inl, inr,
}
use beacn.Base.Strip.{strip}
use beacn.Errors.{ok}
use beacn.Events.Model.{Time}
use beacn.Auth.{
  ApiKey, Producer, has_prefix, has_not_passed, bearer, before_underscore, key_prefix, is_live,
  active_producer, resolve_api_key,
}
use beacn.Auth.Issue.{Wanted, fresh_prefix, full_secret, issued_key, issue, normalise_scopes}
use beacn.Auth.Issue.Fresh.{fresh_prefix-free}

-- The header that bears a token.
abbrev pub bearing : String → Option String
bearing token = some (String.◌++◌ "Bearer " token)

before_underscore-append :
    (prefix body : String)
    → before_underscore prefix ≡ none
    → before_underscore (String.◌++◌ prefix (String.◌++◌ "_" body)) ≡ some prefix
before_underscore-append [] body h = rw (nil-append, cons-append) refl
before_underscore-append (c ∷ s) body h = elim (Option-cases (before_underscore s)) [
  | inl clear ↦ rw (cons-append, before_underscore-append s body clear) (ground (arith, h, clear))
  | inr (w, found) ↦ absurd (ground (arith, h, found))
]

key_prefix-full_secret :
    (prefix body : String)
    → before_underscore prefix ≡ none
    → key_prefix (full_secret prefix body) ≡ some prefix
unfolding key_prefix
key_prefix-full_secret prefix body h =
    rw (cons-append, cons-append, cons-append, nil-append)
      (rw (before_underscore-append prefix body h) refl)

bearer-bearing :
    (token : String)
    → strip token ≡ token
    → is_empty token ≡ false
    → bearer (bearing token) ≡ ok token
unfolding bearer
bearer-bearing token whole full =
    rw
      (
        cons-append, cons-append, cons-append, cons-append, cons-append, cons-append, cons-append,
        nil-append, whole, full,
      )
      refl

full_secret-full : (prefix body : String) → is_empty (full_secret prefix body) ≡ false
full_secret-full prefix body = rw cons-append refl

any-find : (p : ApiKey → Bool) (keys : List ApiKey) → any p keys ≡ false → find p keys ≡ none
any-find p List.[] h = refl
any-find p (List.◌∷◌ key keys) h = ground (arith, any-find p keys)

module _ (hash_secret : String → String) where
  active_producer-ok :
      (producer : Producer)
      → producer.status ≡ "active"
      → active_producer hash_secret (some producer) ≡ ok producer
  active_producer-ok producer active = rw ((eq_iff producer.status "active").1 active) refl

  -- A table in which a live key of an active producer is found by its prefix opens to its secret.
  pub resolve_api_key-found :
      (prefix body : String) (ip : Option String) (keys : List ApiKey) (now : Time) (key : ApiKey)
      (producer : Producer)
      → before_underscore prefix ≡ none
      → strip (full_secret prefix body) ≡ full_secret prefix body
      → find (has_prefix prefix) keys ≡ some key
      → key.secret_hash ≡ hash_secret (full_secret prefix body)
      → is_live key now ≡ true
      → key.producer ≡ some producer
      → producer.status ≡ "active"
      → resolve_api_key hash_secret (bearing (full_secret prefix body)) ip keys now
        ≡ ok (
          record key {
            request_count = key.request_count + 1;
            last_used_at = some now;
            last_used_ip = ip;
          },
          producer,
        )
  unfolding resolve_api_key
  resolve_api_key-found prefix body ip keys now key producer hex whole found secret alive owner
        active =
      let same = (eq_iff key.secret_hash (hash_secret (full_secret prefix body))).1 secret in
      let owns : active_producer hash_secret key.producer ≡ ok producer =
        ap (active_producer hash_secret) owner ∙ active_producer-ok producer active in
      rw
        (
          bearer-bearing (full_secret prefix body) whole (full_secret-full prefix body),
          key_prefix-full_secret prefix body hex,
          found,
          same,
          alive,
          owns,
        )
        refl

  -- What `issue` returns.
  pub issue-eq-some :
      (draws : List String) (id body : String) (producer : Producer) (scopes : Wanted)
      (expires_at : Option Time) (keys : List ApiKey) (r : List ApiKey × (ApiKey × String))
      → issue hash_secret draws id body producer scopes expires_at keys ≡ some r
      → (prefix : String) × ((find (has_prefix prefix) keys ≡ none)
          × (r ≡ (
              let row = issued_key hash_secret id prefix body producer scopes expires_at in
              (keys ++ List.◌∷◌ row List.[], (row, full_secret prefix body)))))
  unfolding issue
  issue-eq-some draws id body producer scopes expires_at keys r issued =
      go (fresh_prefix draws keys) issued (fresh_prefix-free draws keys)
    where
      row : String → ApiKey
      row prefix = issued_key hash_secret id prefix body producer scopes expires_at

      go :
          (drawn : Option String)
          → (elim drawn as (λ x. Option (List ApiKey × (ApiKey × String))) [
            | none ↦ none
            | some prefix ↦
                some (keys ++ List.◌∷◌ (row prefix) List.[], (row prefix, full_secret prefix body))
          ])
            ≡ some r
          → ((prefix : String) → drawn ≡ some prefix → any (has_prefix prefix) keys ≡ false)
          → (prefix : String) × ((find (has_prefix prefix) keys ≡ none)
              × (r
                  ≡ (keys ++ List.◌∷◌ (row prefix) List.[], (row prefix, full_secret prefix body))))
      go none e free = absurd (cc)
      go (some prefix) e free = (prefix, (any-find (has_prefix prefix) keys (free prefix refl), cc))

  -- The secret that `issue` hands out opens the API as soon as the row is stored, until the key expires,
  -- for the key's own producer while that is active, with the scopes that were asked for in their normal
  -- form; if the drawn prefix has no underscore and the secret neither begins nor ends in white space.
  pub issue-resolve_api_key :
      (draws : List String) (id body : String) (producer : Producer) (scopes : Wanted)
      (expires_at : Option Time) (keys : List ApiKey) (r : List ApiKey × (ApiKey × String))
      (ip : Option String) (now : Time)
      → issue hash_secret draws id body producer scopes expires_at keys ≡ some r
      → before_underscore r.1.0.prefix ≡ none
      → strip r.1.1 ≡ r.1.1
      → has_not_passed expires_at now ≡ true
      → producer.status ≡ "active"
      → (resolve_api_key hash_secret (bearing r.1.1) ip r.0 now
          ≡ ok (
            record r.1.0 { request_count = 1; last_used_at = some now; last_used_ip = ip },
            producer,
          ))
        × (r.1.0.scopes ≡ normalise_scopes scopes)
  unfolding is_live
  issue-resolve_api_key draws id body producer scopes expires_at keys r ip now issued hex whole
        alive active =
      let (prefix, (free, made)) =
        issue-eq-some draws id body producer scopes expires_at keys r issued in
      let row = issued_key hash_secret id prefix body producer scopes expires_at in
      subst
        (λ (r : List ApiKey × (ApiKey × String)).
          before_underscore r.1.0.prefix ≡ none
          → strip r.1.1 ≡ r.1.1
          → (resolve_api_key hash_secret (bearing r.1.1) ip r.0 now
              ≡ ok (
                record r.1.0 { request_count = 1; last_used_at = some now; last_used_ip = ip },
                producer,
              ))
            × (r.1.0.scopes ≡ normalise_scopes scopes))
        (sym made)
        (λ hex whole. (
          resolve_api_key-found prefix body ip (keys ++ List.◌∷◌ row List.[]) now row producer hex
              whole (find-last (has_prefix prefix) keys row free (eq_refl prefix)) refl alive refl
              active,
          refl,
        ))
        hex whole
