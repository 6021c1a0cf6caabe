-- ===== src/Ids.antt =====
-- domain/ids.py: prefixed, ULID-backed identifiers. The process-wide `_last_ms` and `_last_rand`
-- are the record `Clock`; `_lock` makes each call of `_ulid` one step on it. What the operating
-- system returns, the wall clock and ten random bytes, is the argument `Reading` of the step.
pub mod Encoding
pub mod Order
pub mod Prefix
mod Tests
use Prim.Native.String
use Prim.Native.String.{[], ◌∷◌}
use beacn.Base.{
  ℕ, zero, suc, Bool, false, ◌||◌, ◌+◌, ◌-◌, ◌*◌, ◌/◌, ◌%◌, ◌^◌, String, Char, code, List, leb, eqb,
  if◌then◌else◌,
}

abbrev pub alphabet : String
alphabet = "0123456789ABCDEFGHJKMNPQRSTVWXYZ"

-- `s[i]`, or `c` past the end.
abbrev char_or : String → ℕ → Char → Char
char_or [] i c = c
char_or (d ∷ s) zero c = d
char_or (d ∷ s) (suc i) c = char_or s i c

-- `_ALPHABET[i]`; the program reads it only below 32.
abbrev pub symbol : ℕ → Char
symbol i = char_or alphabet i "0"

-- The loop of `_encode`, which fills its list from the last place to the first: `value & 0x1F` is
-- the remainder by 32, and `value >>= 5` the quotient.
pub encode_from : ℕ → ℕ → String → String
encode_from value zero out = out
encode_from value (suc i) out = encode_from (value / 32) i (symbol (value % 32) ∷ out)

pub encode : ℕ → ℕ → String
unfolding encode_from
encode value length = encode_from value length ""

pub record Clock : Type 0 where
  pub last_ms : ℕ
  pub last_rand : ℕ

-- `ms` is `int(time.time() * 1000)`, `entropy` is `int.from_bytes(os.urandom(10), "big")`.
pub record Reading : Type 0 where
  pub ms : ℕ
  pub entropy : ℕ

abbrev pub start : Clock
start = record { last_ms = 0; last_rand = 0 }

-- `& _RAND_MAX`, the low 80 bits, is the remainder by this.
abbrev pub rand_modulus : ℕ
rand_modulus = 2 ^ 80

-- The state that one call of `_ulid` leaves.
pub tick : Clock → Reading → Clock
tick c r =
    if leb r.ms c.last_ms
    then (let bumped : ℕ = (c.last_rand + 1) % rand_modulus in
        if eqb bumped 0
        then record { last_ms = c.last_ms + 1; last_rand = r.entropy }
        else record { last_ms = c.last_ms; last_rand = bumped })
    else record { last_ms = r.ms; last_rand = r.entropy }

-- The text that a call of `_ulid` returns, from the state that it leaves.
pub ulid : Clock → String
unfolding encode
ulid c = String.◌++◌ (encode c.last_ms 10) (encode c.last_rand 16)

-- `new_id(prefix)`, from the state that the call leaves.
pub new_id : String → Clock → String
unfolding ulid
new_id prefix c = String.◌++◌ prefix (String.◌++◌ "_" (ulid c))

-- The ids that successive calls return, one for each reading.
pub new_ids : String → Clock → List Reading → List String
new_ids prefix c List.[] = List.[]
new_ids prefix c (List.◌∷◌ r rs) =
    List.◌∷◌ (new_id prefix (tick c r)) (new_ids prefix (tick c r) rs)

-- `"_" in s`
abbrev pub has_underscore : String → Bool
has_underscore [] = false
has_underscore (c ∷ s) = eqb (code c) b'_' || has_underscore s

-- `s.split("_", 1)[1]`
after_underscore : String → String
after_underscore [] = ""
after_underscore (c ∷ s) = if eqb (code c) b'_' then s else after_underscore s

pub ulid_of : String → String
unfolding after_underscore
ulid_of prefixed = if has_underscore prefixed then after_underscore prefixed else prefixed
