-- ===== src/Control/Producers/Disabling.antt =====
-- A producer that is disabled is out, with all of its keys.
use beacn.Base.{
  ◌≡◌, refl, ap, sym, ◌∙◌, Bool, false, String, List, [], ◌∷◌, map, Option, none, some, arith, find,
  Bool-cases, Option-cases, inl, inr, ◌==◌, eq_iff,
}
use beacn.Errors.{ok, ok-injective}
use beacn.Events.Model.{Time}
use beacn.Auth.{ApiKey, Producer, has_prefix, resolve_api_key}
use beacn.Auth.Keys.{resolve_api_key-Admitted}
use beacn.Control.Producers.{
  Registry, producer_with_status, owner_with_status, key_with_status, has_id, producers_set_status,
}

-- What is found among the keys that are saved is a key that was there, with its producer saved.
find-key_with_status :
    (id prefix : String) (active : Bool) (keys : List ApiKey) (row : ApiKey)
    → find (has_prefix prefix) (map (key_with_status id active) keys) ≡ some row
    → (key : ApiKey) × (row ≡ key_with_status id active key)
find-key_with_status id prefix active [] row h = absurd (cc)
find-key_with_status id prefix active (key ∷ keys) row h =
    elim (Bool-cases (key.prefix == prefix)) [
      | inl own ↦
          let here : some (key_with_status id active key) ≡ some row = rw own at h in
          let same : key_with_status id active key ≡ row = cc in (key, sym same)
      | inr other ↦ find-key_with_status id prefix active keys row (rw other at h)
    ]

owner-disabled :
    (id : String) (o : Option Producer) (p : Producer)
    → owner_with_status id false o ≡ some p
    → p.id ≡ id
    → p.status ≡ "disabled"
owner-disabled id none p h k = absurd (cc)
owner-disabled id (some q) p h k =
    let same : producer_with_status id false q ≡ p = cc in
    elim (Bool-cases (q.id == id)) [
      | inl own ↦
          let status : (producer_with_status id false q).status ≡ "disabled" = rw own refl in
          ap (λ x. x.status) (sym same) ∙ status
      | inr other ↦
          let kept : (producer_with_status id false q).id ≡ q.id = rw other refl in
          let is_id : q.id ≡ id = sym kept ∙ ap (λ x. x.id) same ∙ k in
          let yes_id = (eq_iff q.id id).1 is_id in absurd (cc)
    ]

set_status-keys :
    (id : String) (r r' : Registry)
    → producers_set_status id false r ≡ ok r'
    → r'.keys ≡ map (key_with_status id false) r.keys
unfolding producers_set_status
set_status-keys id r r' set = elim (Option-cases (find (has_id id) r.producers)) [
  | inl missing ↦ absurd (ground (arith, set, missing))
  | inr (p, found) ↦ ap (λ x. x.keys) (sym (ok-injective (rw (found, producers_set_status) at set)))
]

-- Once a producer is disabled, no request is let in for it, with whichever of its keys, whatever the
-- header and the time.
pub producers_set_status-resolve_api_key :
    (hash_secret : String → String) (id : String) (r r' : Registry) (header ip : Option String)
    (now : Time) (key : ApiKey) (producer : Producer)
    → producers_set_status id false r ≡ ok r'
    → resolve_api_key hash_secret header ip r'.keys now ≡ ok (key, producer)
    → (producer.id == id) ≡ false
unfolding producers_set_status
producers_set_status-resolve_api_key hash_secret id r r' header ip now key producer set h =
    let a = resolve_api_key-Admitted hash_secret header ip r'.keys now key producer h in
    let saved = set_status-keys id r r' set in
    let (row, is_row) =
      find-key_with_status id a.prefix false r.keys a.row
        (ap (find (has_prefix a.prefix)) (sym saved) ∙ a.stored) in
    let owner : owner_with_status id false row.producer ≡ some producer =
      ap (λ k. k.producer) (sym is_row) ∙ a.owner in
    elim (Bool-cases (producer.id == id)) [
      | inr other ↦ other
      | inl own ↦
          let off = owner-disabled id row.producer producer owner ((eq_iff producer.id id).0 own) in
          let both : ◌≡◌ {A = String} "disabled" "active" = sym off ∙ a.active in absurd (cc)
    ]
