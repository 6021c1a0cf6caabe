-- ===== src/Control/Producers.antt =====
-- `producers_create` and `producers_set_status`, and `keys_create` and `keys_revoke`, of
-- routes/api/control.py. A row of a key stands with its producer as `fetch_related` reads it, so a
-- producer that is saved changes in the rows of its keys, too. The fields of a body are typed.
pub mod Disabling
pub mod Tests
use Prim.Native.String.{[], ◌∷◌}
use Prim.Native.String
use beacn.Base.{
  ℕ, eqb, Bool, true, false, ◌&&◌, ◌||◌, not, String, code, List, map, ◌++◌, Option, none, some,
  or_default, is_none, is_empty, any, elem, find, ◌==◌, if◌then◌else◌,
}
use beacn.Base.Int.{ℤ, pos, ◌+ℤ◌}
use beacn.Base.Strip.{strip}
use beacn.Errors.{Result, ok, err, ◌>>=◌, uncaught, invalid, raise, not_found}
use beacn.Events.Model.{Time}
use beacn.Auth.{ApiKey, Producer}
use beacn.Auth.Issue.{Wanted, in_text, issue, revoke}
use beacn.Jobs.{hours}

pub record Registry : Type 0 where
  pub producers : List Producer
  pub keys : List ApiKey

-- `ENVIRONMENTS`
abbrev pub environments : List String
environments = List.◌∷◌ "development" (List.◌∷◌ "staging" (List.◌∷◌ "production" List.[]))

-- `s.replace(" ", "-")`
abbrev pub spaces_to_dashes : String → String
spaces_to_dashes [] = ""
spaces_to_dashes (c ∷ s) =
    if eqb (code c) b' ' then String.◌++◌ "-" (spaces_to_dashes s) else c ∷ spaces_to_dashes s

abbrev pub has_slug : String → String → Producer → Bool
has_slug environment slug p = p.environment == environment && p.slug == slug

-- `Producer.create_for(name=name, environment=environment, slug=slug)`: the slug is unique in an
-- environment, and the database raises where it is taken; `lower` is `str.lower`.
unfoldable pub create_for :
    (String → String)
    → String
    → String
    → String
    → Option String
    → Registry
    → Result (Producer × Registry)
create_for lower id name environment slug r =
    let made = strip (
      if is_empty (or_default slug "")
      then spaces_to_dashes (lower name)
      else or_default slug "") in
    let producer : Producer = record {
      id = id;
      name = strip name;
      slug = made;
      environment = environment;
      status = "active";
    } in
    if any (has_slug environment made) r.producers
    then err uncaught
    else ok (producer, record r { producers = r.producers ++ List.◌∷◌ producer List.[] })

-- `producers_create(ctx)`; a field of the body is empty or none where the body does not have it.
unfoldable pub producers_create :
    (String → String)
    → (id name environment : String) → Option String
    → Registry
    → Result (Producer × Registry)
producers_create lower id name environment slug r =
    let home = if is_empty environment then "development" else environment in
    if is_empty (strip name)
    then invalid "name is required"
    else if not (elem home environments)
    then invalid "no such environment"
    else create_for lower id (strip name) home slug r

abbrev pub producer_with_status : String → Bool → Producer → Producer
producer_with_status id active p =
    if p.id == id then record p { status = if active then "active" else "disabled" } else p

abbrev pub owner_with_status : String → Bool → Option Producer → Option Producer
owner_with_status id active none = none
owner_with_status id active (some p) = some (producer_with_status id active p)

abbrev pub key_with_status : String → Bool → ApiKey → ApiKey
key_with_status id active key = record key { producer = owner_with_status id active key.producer }

abbrev pub has_id : String → Producer → Bool
has_id id p = p.id == id

-- `producers_set_status(ctx, producer_id)`
unfoldable pub producers_set_status : String → Bool → Registry → Result Registry
producers_set_status id active r = elim (find (has_id id) r.producers) [
  | none ↦ raise not_found "no such producer"
  | some p ↦ ok (record {
    producers = map (producer_with_status id active) r.producers;
    keys = map (key_with_status id active) r.keys;
  })
]

-- `datetime.now(UTC) + timedelta(days=days) if days else None`
abbrev pub expiry : ℕ → Time → Option Time
expiry days now =
    if eqb days 0 then none else some (now +ℤ hours (pos (Prim.Native.Nat.◌*◌ days 24)))

-- `keys_create(ctx)`: the registry, the key and its secret, for days that are not negative. None is the search for a prefix that has
-- no more draws.
unfoldable pub keys_create :
    (String → String)
    → List String
    → (id body producer_id name : String) → Wanted
    → ℕ
    → Time
    → Registry
    → Result (Option (Registry × (ApiKey × String)))
keys_create hash_secret draws id body producer_id name scopes days now r =
    if is_empty (strip name) || is_empty producer_id
    then invalid "name and producer_id are required"
    else elim (find (has_id producer_id) r.producers) [
      | none ↦ raise not_found "no such producer"
      | some p ↦ elim (issue hash_secret draws id body p scopes (expiry days now) r.keys) [
        | none ↦ ok none
        | some (keys, issued) ↦ ok (some (record r { keys = keys }, issued))
      ]
    ]

abbrev pub has_key_id : String → ApiKey → Bool
has_key_id id key = key.id == id

-- `keys_revoke(ctx, key_id)`; the reason is empty where the body gives none.
unfoldable pub keys_revoke : String → String → Time → Registry → Result Registry
keys_revoke id reason now r = elim (find (has_key_id id) r.keys) [
  | none ↦ raise not_found "no such key"
  | some key ↦ ok (record r {
    keys =
        revoke key (if is_empty reason then "revoked from the control plane" else reason) now
          r.keys;
  })
]
