-- ===== src/Auth/Issue/Revoking.antt =====
-- A key that is revoked or rotated no longer opens the API.
use Prim.Native.String
use beacn.Base.{
  ◌≡◌, refl, ap, sym, subst, ◌∙◌, true, false, String, List, ◌++◌, Option, none, some, find,
  find-last, find-append, ◌==◌, eq_refl, Bool-cases, inl, inr, if◌then◌else◌,
}
use beacn.Base.Strip.{strip}
use beacn.Errors.{ok, ok-injective}
use beacn.Events.Model.{Time}
use beacn.Auth.{
  ApiKey, Producer, has_prefix, has_not_passed, bearer, before_underscore, key_prefix, is_live,
  resolve_api_key,
}
use beacn.Auth.Keys.{resolve_api_key-Admitted}
use beacn.Auth.Issue.{
  in_text, full_secret, issued_key, issue, revoked, revoke, rotate, normalise_scopes,
}
use beacn.Auth.Issue.Opening.{bearing, issue-eq-some, resolve_api_key-found}

-- A row that is saved under its prefix is found under it.
saved : ApiKey → String → Time → ApiKey → ApiKey
saved key reason now k = if k.id == key.id then revoked reason now k else k

saved-prefix :
    (key : ApiKey) (reason : String) (now : Time) (prefix : String) (k : ApiKey)
    → has_prefix prefix (saved key reason now k) ≡ has_prefix prefix k
unfolding saved revoked
saved-prefix key reason now prefix k = elim (Bool-cases (k.id == key.id)) [
  | inl own ↦ rw own refl
  | inr other ↦ rw other refl
]

saved-other :
    (key : ApiKey) (reason : String) (now : Time) (k : ApiKey)
    → (k.id == key.id) ≡ false
    → saved key reason now k ≡ k
unfolding saved
saved-other key reason now k other = rw other refl

find-revoke :
    (key : ApiKey) (reason : String) (now : Time) (prefix : String) (keys : List ApiKey)
    (row : ApiKey)
    → find (has_prefix prefix) keys ≡ some row
    → find (has_prefix prefix) (revoke key reason now keys) ≡ some (saved key reason now row)
unfolding revoke saved
find-revoke key reason now prefix List.[] row h = absurd (cc)
find-revoke key reason now prefix (List.◌∷◌ k keys) row h = elim (Bool-cases (k.prefix == prefix)) [
  | inl own ↦
      let here : some k ≡ some row = rw own at h in
      let same : k ≡ row = cc in
      rw (saved-prefix key reason now prefix k, own) (ap (λ r. some (saved key reason now r)) same)
  | inr other ↦
      rw (saved-prefix key reason now prefix k, other)
        (find-revoke key reason now prefix keys row (rw other at h))
]

module _ (hash_secret : String → String) where
  -- After `revoke`, no request is let in whose token names the prefix of the key, with whatever secret
  -- and at whatever time; the key was the row of its prefix.
  pub revoke-refused :
      (key : ApiKey) (reason : String) (now later : Time) (keys : List ApiKey)
      (header ip : Option String) (token : String) (found : ApiKey × Producer)
      → find (has_prefix key.prefix) keys ≡ some key
      → bearer header ≡ ok token
      → key_prefix token ≡ some key.prefix
      → ¬ (resolve_api_key hash_secret header ip (revoke key reason now keys) later ≡ ok found)
  unfolding saved revoked
  revoke-refused key reason now later keys header ip token found known sent form h =
      let a =
        resolve_api_key-Admitted hash_secret header ip (revoke key reason now keys) later found.0
          found.1 h in
      let same : a.token ≡ token = ok-injective (sym a.sent ∙ sent) in
      let one : some a.prefix ≡ some key.prefix = sym a.has_form ∙ ap key_prefix same ∙ form in
      let same_prefix : a.prefix ≡ key.prefix = cc in
      let stored =
        sym a.stored
        ∙ ap (λ p. find (has_prefix p) (revoke key reason now keys)) same_prefix
        ∙ find-revoke key reason now key.prefix keys key known in
      let row : a.row ≡ saved key reason now key = cc in
      let closed : (saved key reason now key).status ≡ "revoked" = rw (eq_refl key.id) refl in
      let both : ◌≡◌ {A = String} "revoked" "active" =
        sym closed ∙ ap (λ k. k.status) (sym row) ∙ a.enabled in
      absurd (cc)

  -- What `rotate` returns.
  rotate-eq-some :
      (draws : List String) (id body : String) (old : ApiKey) (producer : Producer) (now : Time)
      (keys : List ApiKey) (r : List ApiKey × (ApiKey × String))
      → rotate hash_secret draws id body old producer now keys ≡ some r
      → (q : List ApiKey × (ApiKey × String)) × ((issue hash_secret draws id body producer
              (in_text old.scopes)
              old.expires_at
              keys
            ≡ some q)
          × (r ≡ (revoke old (String.◌++◌ "rotated to " q.1.0.prefix) now q.0, q.1)))
  unfolding rotate
  rotate-eq-some draws id body old producer now keys r h =
      go (issue hash_secret draws id body producer (in_text old.scopes) old.expires_at keys) h
    where
      go :
          (m : Option (List ApiKey × (ApiKey × String)))
          → (elim m as (λ x. Option (List ApiKey × (ApiKey × String))) [
            | none ↦ none
            | some (keys', (new, secret)) ↦
                some (revoke old (String.◌++◌ "rotated to " new.prefix) now keys', (new, secret))
          ])
            ≡ some r
          → (q : List ApiKey × (ApiKey × String)) × ((m ≡ some q)
              × (r ≡ (revoke old (String.◌++◌ "rotated to " q.1.0.prefix) now q.0, q.1)))
      go none h = absurd (cc)
      go (some q) h = (q, (refl, cc))

  -- A rotation closes the old key and opens the new one: no request is let in any more whose token names
  -- the old prefix, and the new secret lets its producer in, with the scopes of the old key in their
  -- normal form, until the time at which the old key would have expired; if the old key was the row of
  -- its prefix, the id of the new row is another one, the producer is active, and the new prefix has no
  -- underscore and the new secret neither begins nor ends in white space.
  pub rotate-resolve_api_key :
      (draws : List String) (id body : String) (old : ApiKey) (producer : Producer)
      (now later : Time) (keys : List ApiKey) (r : List ApiKey × (ApiKey × String))
      (header ip : Option String) (token : String) (found : ApiKey × Producer)
      → rotate hash_secret draws id body old producer now keys ≡ some r
      → find (has_prefix old.prefix) keys ≡ some old
      → (id == old.id) ≡ false
      → before_underscore r.1.0.prefix ≡ none
      → strip r.1.1 ≡ r.1.1
      → has_not_passed old.expires_at later ≡ true
      → producer.status ≡ "active"
      → bearer header ≡ ok token
      → key_prefix token ≡ some old.prefix
      → (¬ (resolve_api_key hash_secret header ip r.0 later ≡ ok found))
        × ((resolve_api_key hash_secret (bearing r.1.1) ip r.0 later
              ≡ ok (
                record r.1.0 { request_count = 1; last_used_at = some later; last_used_ip = ip },
                producer,
              ))
            × (r.1.0.scopes ≡ normalise_scopes (in_text old.scopes)))
  unfolding is_live
  rotate-resolve_api_key draws id body old producer now later keys r header ip token found rotated
        known other hex whole alive active sent form =
      let (q, (issued, turned)) = rotate-eq-some draws id body old producer now keys r rotated in
      let (prefix, (free, made)) =
        issue-eq-some hash_secret draws id body producer (in_text old.scopes) old.expires_at keys q
          issued in
      let row =
        issued_key hash_secret id prefix body producer (in_text old.scopes) old.expires_at in
      let reason = String.◌++◌ "rotated to " prefix in
      let table = keys ++ List.◌∷◌ row List.[] in
      let whole_r : r ≡ (revoke old reason now table, (row, full_secret prefix body)) =
        turned
        ∙ ap
            (λ (q : List ApiKey × (ApiKey × String)).
              (revoke old (String.◌++◌ "rotated to " q.1.0.prefix) now q.0, q.1))
            made in
      subst
        (λ (r : List ApiKey × (ApiKey × String)).
          before_underscore r.1.0.prefix ≡ none
          → strip r.1.1 ≡ r.1.1
          → (¬ (resolve_api_key hash_secret header ip r.0 later ≡ ok found))
            × ((resolve_api_key hash_secret (bearing r.1.1) ip r.0 later
                  ≡ ok (
                    record r.1.0 {
                      request_count = 1;
                      last_used_at = some later;
                      last_used_ip = ip;
                    },
                    producer,
                  ))
                × (r.1.0.scopes ≡ normalise_scopes (in_text old.scopes))))
        (sym whole_r)
        (λ hex whole. (
          revoke-refused old reason now later table header ip token found
              (find-append (has_prefix old.prefix) keys (List.◌∷◌ row List.[]) old known) sent form,
          (
            resolve_api_key-found hash_secret prefix body ip (revoke old reason now table) later row
                producer hex whole
                (find-revoke old reason now prefix table row
                    (find-last (has_prefix prefix) keys row free (eq_refl prefix))
                  ∙ ap some (saved-other old reason now row other))
                refl alive refl active,
            refl,
          ),
        ))
        hex whole
