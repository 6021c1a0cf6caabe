-- ===== src/Auth/Issue.antt =====
-- The life of an API key, of database/models/producer.py: `_normalise_scopes`, `ApiKey.issue` and
-- `revoke`; and `keys_rotate` of routes/api/control.py, between its lookup and its answer. The texts
-- that `secrets.token_hex(4)` returns one after the other are the draws.
pub mod Fresh
pub mod Opening
pub mod Revoking
pub mod Tests
use Prim.Native.String.{[], ◌∷◌}
use Prim.Native.String
use beacn.Base.{
  ℕ, eqb, Bool, true, false, ◌&&◌, ◌||◌, not, String, Char, code, List, map, ◌++◌, Option, none,
  some, any, is_empty, elem, ◌==◌, if◌then◌else◌,
}
use beacn.Base.Strip.{strip}
use beacn.Events.Model.{Time}
use beacn.Auth.{Producer, ApiKey, words, has_prefix}

-- `SCOPES`
abbrev pub scopes_known : List String
scopes_known = List.◌∷◌ "events:publish" (
    List.◌∷◌ "events:read" (
      List.◌∷◌ "events:replay" (
        List.◌∷◌ "topics:read" (
          List.◌∷◌ "tasks:read" (
            List.◌∷◌ "notifications:read" (
              List.◌∷◌ "notifications:write"
                (List.◌∷◌ "connections:read" (List.◌∷◌ "system:read" List.[]))))))))

-- The scopes as they are asked for: a text, or a list of texts.
pub data Wanted : Type 0 where
  in_text : String → Wanted
  in_list : List String → Wanted

-- `raw.replace(",", " ")`
abbrev commas_to_spaces : String → String
commas_to_spaces [] = ""
commas_to_spaces (c ∷ s) =
    if eqb (code c) b',' then String.◌++◌ " " (commas_to_spaces s) else c ∷ commas_to_spaces s

abbrev parts_of : Wanted → List String
parts_of (in_text raw) = words (commas_to_spaces raw)
parts_of (in_list parts) = parts

abbrev pub may_carry : String → Bool
may_carry p = p == "*" || elem p scopes_known

-- The loop over the parts; `seen` is in the order of the appends.
abbrev pub seen_from : List String → List String → List String
seen_from seen List.[] = seen
seen_from seen (List.◌∷◌ part parts) =
    let p = strip part in
    if not (is_empty p) && not (elem p seen) && may_carry p
    then seen_from (seen ++ List.◌∷◌ p List.[]) parts
    else seen_from seen parts

-- `" ".join(seen)`
abbrev pub join : List String → String
join List.[] = ""
join (List.◌∷◌ p List.[]) = p
join (List.◌∷◌ p (List.◌∷◌ q ps)) = String.◌++◌ p (String.◌++◌ " " (join (List.◌∷◌ q ps)))

-- `_normalise_scopes(raw)`
unfoldable pub normalise_scopes : Wanted → String
normalise_scopes raw =
    let joined = join (seen_from List.[] (parts_of raw)) in
    if is_empty joined then "events:publish" else joined

-- The first draw that no key has; none while all of the draws are taken.
unfoldable pub fresh_prefix : List String → List ApiKey → Option String
fresh_prefix List.[] keys = none
fresh_prefix (List.◌∷◌ drawn draws) keys =
    let rest = fresh_prefix draws keys in if any (has_prefix drawn) keys then rest else some drawn

-- `bk_<prefix>_<secret>`
abbrev pub full_secret : String → String → String
full_secret prefix body = String.◌++◌ "bk_" (String.◌++◌ prefix (String.◌++◌ "_" body))

module _ (hash_secret : String → String) where
  -- The row that `issue` creates; `body` is the text of `secrets.token_urlsafe(32)`.
  abbrev pub issued_key : String → String → String → Producer → Wanted → Option Time → ApiKey
  issued_key id prefix body producer scopes expires_at = record {
    id = id;
    producer = some producer;
    prefix = prefix;
    secret_hash = hash_secret (full_secret prefix body);
    scopes = normalise_scopes scopes;
    status = "active";
    revoked_at = none;
    revoked_reason = none;
    expires_at = expires_at;
    request_count = 0;
    last_used_at = none;
    last_used_ip = none;
  }

  -- `ApiKey.issue(...)`: the table, the row and the secret that the caller gets to see.
  unfoldable pub issue :
      List String
      → String
      → String
      → Producer
      → Wanted
      → Option Time
      → List ApiKey
      → Option (List ApiKey × (ApiKey × String))
  issue draws id body producer scopes expires_at keys = elim (fresh_prefix draws keys) [
    | none ↦ none
    | some prefix ↦
        let row = issued_key id prefix body producer scopes expires_at in
        some (keys ++ List.◌∷◌ row List.[], (row, full_secret prefix body))
  ]

-- `key.revoke(reason)`, of the row itself.
unfoldable pub revoked : String → Time → ApiKey → ApiKey
revoked reason now key = record key {
  status = "revoked";
  revoked_at = some now;
  revoked_reason = if is_empty reason then none else some reason;
}

-- `key.save()` behind it: the row of the same id.
unfoldable pub revoke : ApiKey → String → Time → List ApiKey → List ApiKey
revoke key reason now keys = map (λ k. if k.id == key.id then revoked reason now k else k) keys

-- `keys_rotate(ctx, key_id)` on a key and its producer.
unfoldable pub rotate :
    (String → String)
    → List String
    → String
    → String
    → ApiKey
    → Producer
    → Time
    → List ApiKey
    → Option (List ApiKey × (ApiKey × String))
rotate hash_secret draws id body old producer now keys =
    elim (issue hash_secret draws id body producer (in_text old.scopes) old.expires_at keys) [
      | none ↦ none
      | some (keys', (new, secret)) ↦
          some (revoke old (String.◌++◌ "rotated to " new.prefix) now keys', (new, secret))
    ]
