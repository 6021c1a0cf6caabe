-- ===== src/Api/Endpoint.antt =====
-- A route of the producer API lets in whom its key admits, and nobody else changes anything but the
-- counters of the key.
use beacn.Base.{
  ◌+◌, ◌≡◌, refl, ap, sym, subst, map, some, Option, ◌==◌, ◌&&◌, Bool, true, false, String, List,
  [], ◌∷◌, all, if◌then◌else◌,
}
use beacn.Errors.{Failure, beacn_error, raise_as, authorization, Result, ok, err, ◌>>◌}
use beacn.Events.Model.{Time}
use beacn.Auth.{ApiKey, Producer, key_has_scope, resolve_api_key, require_scope}
use beacn.Auth.Keys.{Admitted, used_by, resolve_api_key-used_by}
use beacn.Api.{
  HttpRequest, Response, Answer, require_scopes, answer_of, save_key, producer_endpoint,
}

-- What `require_scope` raises.
abbrev pub forbidden : Failure
forbidden = beacn_error (raise_as authorization "API key is missing the scope")

require_scopes-all :
    (key : ApiKey) (scopes : List String)
    → require_scopes key scopes ≡ (if all (key_has_scope key) scopes then ok key else err forbidden)
unfolding require_scopes require_scope
require_scopes-all key [] = refl
require_scopes-all key (scope ∷ scopes) =
    go (key_has_scope key scope) (require_scopes-all key scopes)
  where
    go :
        (b : Bool)
        → require_scopes key scopes
          ≡ (if all (key_has_scope key) scopes then ok key else err forbidden)
        → ((if b then ok key else err forbidden) >> require_scopes key scopes)
          ≡ (if b && all (key_has_scope key) scopes then ok key else err forbidden)
    go true ih = ih
    go false ih = refl

-- The keys with the counters of one row raised by a request, if the database takes that.
abbrev pub counted : Bool → Option String → Time → ApiKey → List ApiKey → List ApiKey
counted saves ip now row keys =
    map
      (λ k.
        if saves && k.id == row.id
        then record k {
          request_count = row.request_count + 1;
          last_used_at = some now;
          last_used_ip = ip;
        }
        else k)
      keys

save_key-used_by :
    (hash_secret : String → String) (saves : Bool) (ip : Option String) (now : Time) (row : ApiKey)
    (keys : List ApiKey)
    → save_key saves (used_by hash_secret ip now row) keys ≡ counted saves ip now row keys
unfolding save_key
save_key-used_by hash_secret true ip now row keys = refl
save_key-used_by hash_secret false ip now row [] = refl
save_key-used_by hash_secret false ip now row (k ∷ keys) = ap (λ ks. k ∷ ks) (same keys)
  where
    same : (ks : List ApiKey) → ks ≡ map (λ k. k) ks
    same [] = refl
    same (k ∷ ks) = ap (λ us. k ∷ us) (same ks)

-- How an endpoint ends, with the state of its handler and the keys: for a request that its header does
-- not admit, in an error that changes nothing; for a key that lacks a scope of the route, in the error
-- `forbidden`, with the counters of the key raised; else as the handler ends, with the counters raised.
-- The handler is given the row that admitted the request, with these counters.
pub data Ends {B S : Type 0} (hash_secret : String → String) (scopes : List String)
    (handler : ApiKey → Producer → S → Result (Response B) × S) (request : HttpRequest)
    (saves : Bool) (keys : List ApiKey) (now : Time) (s : S) (result : (Answer B × S) × List ApiKey)
    : Type 0 where
  refused :
      (e : Failure)
      → resolve_api_key hash_secret request.authorization request.ip keys now ≡ err e
      → result ≡ (answer_of (err e, s), keys)
      → Ends hash_secret scopes handler request saves keys now s result
  lacks_scope :
      (producer : Producer) (who : Admitted hash_secret request.authorization keys now producer)
      → all (key_has_scope who.row) scopes ≡ false
      → result ≡ (answer_of (err forbidden, s), counted saves request.ip now who.row keys)
      → Ends hash_secret scopes handler request saves keys now s result
  let_in :
      (producer : Producer) (who : Admitted hash_secret request.authorization keys now producer)
      → all (key_has_scope who.row) scopes ≡ true
      → result ≡ (
        answer_of (handler (used_by hash_secret request.ip now who.row) producer s),
        counted saves request.ip now who.row keys,
      )
      → Ends hash_secret scopes handler request saves keys now s result

-- Whatever the handler of a route of the producer API does, it does for a request that bears a live key
-- of an active producer with each scope that the route asks for. A key that lacks a scope is answered
-- with `forbidden`, and any other request with the error of its key; either leaves the state of the
-- handler as it was. The keys stay as they were, but for the key of an admitted request: its requests
-- are one more, and it was last used now and from the address of the request, if the database takes
-- that.
pub producer_endpoint-Ends :
    {B S : Type 0} (hash_secret : String → String) (scopes : List String)
    (handler : ApiKey → Producer → S → Result (Response B) × S) (request : HttpRequest)
    (saves : Bool) (keys : List ApiKey) (now : Time) (s : S)
    → Ends hash_secret scopes handler request saves keys now s
        (producer_endpoint hash_secret scopes handler request saves keys now s)
unfolding producer_endpoint
producer_endpoint-Ends {B} {S} hash_secret scopes handler request saves keys now s =
    go (resolve_api_key hash_secret request.authorization request.ip keys now) refl
  where
    scoped : ApiKey → Producer → Result ApiKey → Answer B × S
    scoped key producer m = elim m as (λ x. Answer B × S) [
      | ok k ↦ answer_of (handler key producer s)
      | err e ↦ answer_of (err e, s)
    ]

    inside :
        (producer : Producer) (who : Admitted hash_secret request.authorization keys now producer)
        (b : Bool)
        → all (key_has_scope who.row) scopes ≡ b
        → Ends hash_secret scopes handler request saves keys now s (
          scoped
              (used_by hash_secret request.ip now who.row)
              producer
              (if b then ok (used_by hash_secret request.ip now who.row) else err forbidden),
          counted saves request.ip now who.row keys,
        )
    inside producer who true h = let_in producer who h refl
    inside producer who false h = lacks_scope producer who h refl

    entered :
        (key : ApiKey) (producer : Producer)
        (who : Admitted hash_secret request.authorization keys now producer)
        → used_by hash_secret request.ip now who.row ≡ key
        → Ends hash_secret scopes handler request saves keys now s
            (scoped key producer (require_scopes key scopes), save_key saves key keys)
    entered key producer who same =
        subst
          (λ k.
            Ends hash_secret scopes handler request saves keys now s
              (scoped k producer (require_scopes k scopes), save_key saves k keys))
          same
          (rw
            (
              require_scopes-all (used_by hash_secret request.ip now who.row) scopes,
              save_key-used_by hash_secret saves request.ip now who.row keys,
            )
            (inside producer who (all (key_has_scope who.row) scopes) refl))

    go :
        (m : Result (ApiKey × Producer))
        → resolve_api_key hash_secret request.authorization request.ip keys now ≡ m
        → Ends hash_secret scopes handler request saves keys now s
            (elim m as (λ x. (Answer B × S) × List ApiKey) [
              | err e ↦ (answer_of (err e, s), keys)
              | ok found ↦ (
                scoped found.0 found.1 (require_scopes found.0 scopes),
                save_key saves found.0 keys,
              )
            ])
    go (err e) h = refused e h refl
    go (ok (key, producer)) h =
        let (who, same) =
          resolve_api_key-used_by hash_secret request.authorization request.ip keys now key producer
            h in
        entered key producer who (sym same)
