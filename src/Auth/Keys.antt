-- ===== src/Auth/Keys.antt =====
-- An API key opens the API only while it is live, its secret matches and its producer is active.
use beacn.Base.{
  and-eq-true, ◌+◌, ◌≡◌, ap, ◌∙◌, sym, true, ◌||◌, String, List, Option, none, some, ◌==◌, eq_iff,
  elem, find, if◌then◌else◌,
}
use beacn.Errors.{ok, raise, authentication, bind-eq-ok, if-eq-ok, ok-injective}
use beacn.Events.Model.{Time}
use Prim.Native.String
use beacn.Topics.{Grant}
use beacn.Auth.{
  has_not_passed, ApiKey, Producer, is_live, bearer, key_prefix, has_prefix, known_key,
  active_producer, prefix_or_raise, resolve_api_key, require_scope, grant_from_api_key_token,
  key_has_scope,
}

module _ (hash_secret : String → String) where
  -- The row that stands behind an admitted request.
  pub record Admitted (header : Option String) (keys : List ApiKey) (now : Time)
      (producer : Producer) : Type 0 where
    pub token : String
    pub prefix : String
    pub row : ApiKey
    pub sent : bearer header ≡ ok token
    pub has_form : key_prefix token ≡ some prefix
    pub stored : find (has_prefix prefix) keys ≡ some row
    pub secret : row.secret_hash ≡ hash_secret token
    pub enabled : row.status ≡ "active"
    pub unexpired : has_not_passed row.expires_at now ≡ true
    pub owner : row.producer ≡ some producer
    pub active : producer.status ≡ "active"

  prefix-ok :
      (found : Option String) (p : String)
      → prefix_or_raise hash_secret found ≡ ok p
      → found ≡ some p
  prefix-ok none p h = absurd (cc)
  prefix-ok (some q) p h = ap some (ok-injective h)

  known-ok :
      (token : String) (found : Option ApiKey) (key : ApiKey)
      → known_key hash_secret token found ≡ ok key
      → (found ≡ some key) × (key.secret_hash ≡ hash_secret token)
  known-ok token none key h = absurd (cc)
  known-ok token (some row) key h =
      let (same, e) = if-eq-ok (row.secret_hash == hash_secret token) row _ h in
      (
        ap some e,
        ap (λ k. k.secret_hash) (sym e) ∙ (eq_iff row.secret_hash (hash_secret token)).0 same,
      )

  active-ok :
      (found : Option Producer) (producer : Producer)
      → active_producer hash_secret found ≡ ok producer
      → (found ≡ some producer) × (producer.status ≡ "active")
  active-ok none producer h = absurd (cc)
  active-ok (some p) producer h =
      let (same, e) = if-eq-ok (p.status == "active") p _ h in
      (ap some e, ap (λ q. q.status) (sym e) ∙ (eq_iff p.status "active").0 same)

  -- The row that a request is admitted with, with its counters.
  abbrev pub used_by : Option String → Time → ApiKey → ApiKey
  used_by ip now row = record row {
    request_count = row.request_count + 1;
    last_used_at = some now;
    last_used_ip = ip;
  }

  -- What is returned is the row with its counters.
  pub resolve_api_key-used_by :
      (header ip : Option String) (keys : List ApiKey) (now : Time) (key : ApiKey)
      (producer : Producer)
      → resolve_api_key hash_secret header ip keys now ≡ ok (key, producer)
      → (who : Admitted header keys now producer) × (key ≡ used_by ip now who.row)
  unfolding resolve_api_key is_live
  resolve_api_key-used_by header ip keys now key producer h =
      let (token, sent, h1) = bind-eq-ok (bearer header) _ h in
      let (prefix, form, h2) = bind-eq-ok (prefix_or_raise hash_secret (key_prefix token)) _ h1 in
      let (row, known, h3) =
        bind-eq-ok (known_key hash_secret token (find (has_prefix prefix) keys)) _ h2 in
      let (live, alive, h4) =
        bind-eq-ok
          (if is_live row now then ok row else raise authentication "API key is revoked or expired")
          _ h3 in
      let (lives, same) = if-eq-ok (is_live row now) row _ alive in
      let (enabled, unexpired) =
        and-eq-true (row.status == "active") (has_not_passed row.expires_at now) lives in
      let (owner, active, h5) = bind-eq-ok (active_producer hash_secret live.producer) _ h4 in
      let (stored, secret) = known-ok token (find (has_prefix prefix) keys) row known in
      let (owned, is_active) = active-ok live.producer owner active in
      let is_owner : owner ≡ producer = ap (λ p. p.1) (ok-injective h5) in
      (
        record {
          token = token;
          prefix = prefix;
          row = row;
          sent = sent;
          has_form = prefix-ok (key_prefix token) prefix form;
          stored = stored;
          secret = secret;
          enabled = (eq_iff row.status "active").0 enabled;
          unexpired = unexpired;
          owner = ap (λ k. k.producer) same ∙ owned ∙ ap some is_owner;
          active = ap (λ p. p.status) (sym is_owner) ∙ is_active;
        },
        sym (ap (λ p. p.0) (ok-injective h5)) ∙ ap (used_by ip now) (sym same),
      )

  -- A request is admitted only if its header bears a token of the form "bk_<prefix>_<secret>" whose
  -- prefix names a stored key, whose hash is that key's, while the key is active and has not expired,
  -- and its producer exists and is active; the producer that is returned is the key's own.
  pub resolve_api_key-Admitted :
      (header ip : Option String) (keys : List ApiKey) (now : Time) (key : ApiKey)
      (producer : Producer)
      → resolve_api_key hash_secret header ip keys now ≡ ok (key, producer)
      → Admitted header keys now producer
  resolve_api_key-Admitted header ip keys now key producer h =
      (resolve_api_key-used_by header ip keys now key producer h).0

  -- A consumer that connects with an API key is an operator only if the key lists the scope
  -- system:read itself: the wildcard scope is not enough for that, though it opens the connection.
  pub grant-operator :
      (token : String) (keys : List ApiKey) (now : Time) (grant : Grant)
      → grant_from_api_key_token hash_secret token keys now ≡ ok grant
      → (grant.operator ≡ elem "system:read" grant.scopes)
        × ((elem "events:read" grant.scopes || elem "*" grant.scopes) ≡ true)
  unfolding grant_from_api_key_token require_scope
  grant-operator token keys now grant h =
      let (found, resolved, h1) =
        bind-eq-ok (resolve_api_key hash_secret (some (String.◌++◌ "Bearer " token)) none keys now)
          _ h in
      let (key, scoped, h2) = bind-eq-ok (require_scope found.0 "events:read") _ h1 in
      let (may, same) = if-eq-ok (key_has_scope found.0 "events:read") found.0 _ scoped in
      let made = sym (ok-injective h2) in
      (
        ap (λ g. g.operator) made ∙ ap (λ g. elem "system:read" g.scopes) (sym made),
        ap (λ g. elem "events:read" g.scopes || elem "*" g.scopes) made
            ∙ ap (λ k. key_has_scope k "events:read") (sym same)
            ∙ may,
      )
