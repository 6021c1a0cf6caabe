-- ===== src/Ids/Encoding.antt =====
-- The base-32 text of a number keeps its order, since the alphabet is in the order of code points.
use Prim.Native.String
use Prim.Native.String.{[], ◌∷◌}
use native.Mathlib.Nat.{pow-suc}
use native.Mathlib.Decide.{dec_lt}
use text.Mathlib.TextLemmas.{nil-append, cons-append}
use beacn.Base.{
  ℕ, zero, suc, ◌+◌, ◌/◌, ◌%◌, ◌^◌, ◌<◌, ◌≡◌, refl, ap, Bool, true, ◌&&◌, String, Char, code, ◌∙◌,
  arith, ltb, ltb→lt, and-eq-true, ◌≤◌, size, str_ltb,
}
use beacn.Ids.{symbol, encode_from, encode, Clock, ulid}

-- The first `n` symbols of the alphabet stand below their successors.
climbs : ℕ → Bool
climbs zero = true
climbs (suc n) = ltb (code (symbol n)) (code (symbol (suc n))) && climbs n

alphabet_climbs : climbs 31 ≡ true
unfolding climbs
alphabet_climbs = refl

climbs-le : (n j : ℕ) → climbs n ≡ true → j ≤ n → climbs j ≡ true
unfolding climbs
climbs-le zero zero h k = refl
climbs-le zero (suc j) h k = absurd (omega arith)
climbs-le (suc n) j h k = elim (dec_lt n j) [
  | yes top ↦ let same : j ≡ suc n = omega arith in rw same h
  | no below ↦ climbs-le n j (and-eq-true _ _ h).1 (omega arith)
]

climbs-lt : (i j : ℕ) → climbs j ≡ true → i < j → code (symbol i) < code (symbol j)
unfolding climbs
climbs-lt i zero h k = absurd (omega arith)
climbs-lt i (suc j) h k =
    let (last, before) = and-eq-true _ _ h in
    let top : code (symbol j) < code (symbol (suc j)) = ltb→lt _ _ last in
    elim (dec_lt i j) [
      | yes below ↦ omega (arith, climbs-lt i j before below, top)
      | no same ↦ let equal : i ≡ j = omega arith in rw equal top
    ]

pub symbol_mono : (i j : ℕ) → i < j → j < 32 → code (symbol i) < code (symbol j)
symbol_mono i j h k = climbs-lt i j (climbs-le 31 j alphabet_climbs (omega arith)) h

pub size-encode_from : (n v : ℕ) (out : String) → size (encode_from v n out) ≡ n + size out
unfolding encode_from
size-encode_from zero v out = omega arith
size-encode_from (suc n) v out = omega (arith, size-encode_from n (v / 32) (symbol (v % 32) ∷ out))

pub encode_from-append :
    (n v : ℕ) (out t : String)
    → String.◌++◌ (encode_from v n out) t ≡ encode_from v n (String.◌++◌ out t)
unfolding encode_from
encode_from-append zero v out t = refl
encode_from-append (suc n) v out t =
    rw (encode_from-append n (v / 32) (symbol (v % 32) ∷ out) t, cons-append)

same_head : (c : Char) (s t : String) → str_ltb (c ∷ s) (c ∷ t) ≡ str_ltb s t
same_head c s t = ground arith

smaller_head : (c d : Char) (s t : String) → code c < code d → str_ltb (c ∷ s) (d ∷ t) ≡ true
smaller_head c d s t h = ground arith

-- Equal numbers leave the comparison to what follows their digits.
pub encode_from_same :
    (n v : ℕ) (s t : String) → str_ltb (encode_from v n s) (encode_from v n t) ≡ str_ltb s t
unfolding encode_from
encode_from_same zero v s t = refl
encode_from_same (suc n) v s t =
    encode_from_same n (v / 32) (symbol (v % 32) ∷ s) (symbol (v % 32) ∷ t)
    ∙ same_head (symbol (v % 32)) s t

-- A smaller number has the smaller text, whatever follows the digits.
pub encode_from_mono :
    (n v w : ℕ) (s t : String)
    → v < w
    → w < 32 ^ n
    → str_ltb (encode_from v n s) (encode_from w n t) ≡ true
unfolding encode_from
encode_from_mono zero v w s t h k = absurd (omega arith)
encode_from_mono (suc n) v w s t h k =
    let wide : w / 32 < 32 ^ n = omega (arith, pow-suc 32 n) in
    elim (dec_lt (v / 32) (w / 32)) [
      | yes lower ↦
          encode_from_mono n (v / 32) (w / 32) (symbol (v % 32) ∷ s) (symbol (w % 32) ∷ t) lower
            wide
      | no same ↦
          let equal : v / 32 ≡ w / 32 = omega arith in
          rw equal (
            encode_from_same n (w / 32) (symbol (v % 32) ∷ s) (symbol (w % 32) ∷ t)
            ∙ smaller_head (symbol (v % 32)) (symbol (w % 32)) s t
                (symbol_mono (v % 32) (w % 32) (omega arith) (omega arith)))
    ]

encode-append : (n v : ℕ) (t : String) → String.◌++◌ (encode_from v n "") t ≡ encode_from v n t
encode-append n v t = encode_from-append n v "" t ∙ ap (encode_from v n) (nil-append t)

-- A ULID is the digits of its time field, then those of its random field.
pub ulid-eq : (c : Clock) → ulid c ≡ encode_from c.last_ms 10 (encode_from c.last_rand 16 "")
unfolding ulid encode
ulid-eq c = encode-append 10 c.last_ms (encode_from c.last_rand 16 "")
