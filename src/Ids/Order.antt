-- ===== src/Ids/Order.antt =====
-- Ids minted by one process compare in the order of their creation.
use Prim.Native.String
use Prim.Native.String.{[], ◌∷◌}
use text.Mathlib.TextLemmas.{nil-append, cons-append}
use beacn.Base.{
  ℕ, suc, ◌+◌, ◌^◌, ◌<◌, ◌≡◌, refl, ◌∙◌, ◌⊎◌, inl, inr, true, String, List, arith, str_ltb,
  str_ltb_trans, length, All, Pairwise,
}
use beacn.Ids.{Clock, Reading, rand_modulus, tick, ulid, new_id, new_ids}
use beacn.Ids.Encoding.{ulid-eq, encode_from_same, encode_from_mono}

-- The random field fits its 80 bits, and `room` more calls keep the time field in its 50 bits.
pub record Fits (room : ℕ) (c : Clock) : Type 0 where
  pub ms_fits : c.last_ms + room < 2 ^ 50
  pub rand_fits : c.last_rand < rand_modulus

abbrev pub ReadingFits : ℕ → Reading → Type 0
ReadingFits room r = (r.ms + room < 2 ^ 50) × (r.entropy < rand_modulus)

-- The pair of fields grows at every call, in the order that puts the time first.
abbrev pub Later : Clock → Clock → Type 0
Later c d = (c.last_ms < d.last_ms) ⊎ ((c.last_ms ≡ d.last_ms) × (c.last_rand < d.last_rand))

tick-Later : (c : Clock) (r : Reading) → c.last_rand < rand_modulus → Later c (tick c r)
unfolding tick
tick-Later c r h = ground arith

tick-Fits :
    (room : ℕ) (c : Clock) (r : Reading)
    → Fits (suc room) c
    → ReadingFits (suc room) r
    → Fits room (tick c r)
unfolding tick
tick-Fits room c r h k = ground arith

ulid-Later : (c d : Clock) → Fits 0 c → Fits 0 d → Later c d → str_ltb (ulid c) (ulid d) ≡ true
ulid-Later c d hc hd (inl earlier) =
    rw (ulid-eq c, ulid-eq d)
      (encode_from_mono 10 c.last_ms d.last_ms _ _ earlier (omega (arith, hd.ms_fits)))
ulid-Later c d hc hd (inr (same, smaller)) =
    rw (ulid-eq c, ulid-eq d, same)
      (encode_from_same 10 d.last_ms _ _
        ∙ encode_from_mono 16 c.last_rand d.last_rand "" "" smaller (omega (arith, hd.rand_fits)))

-- What stands before two texts leaves their order alone.
str_ltb-append : (p s t : String) → str_ltb (String.◌++◌ p s) (String.◌++◌ p t) ≡ str_ltb s t
str_ltb-append [] s t = rw (nil-append, nil-append)
str_ltb-append (c ∷ p) s t = rw (cons-append, cons-append) (ground (arith, str_ltb-append p s t))

new_id-Later :
    (p : String) (c d : Clock)
    → Fits 0 c
    → Fits 0 d
    → Later c d
    → str_ltb (new_id p c) (new_id p d) ≡ true
unfolding new_id
new_id-Later p c d hc hd h =
    str_ltb-append p (String.◌++◌ "_" (ulid c)) (String.◌++◌ "_" (ulid d))
    ∙ str_ltb-append "_" (ulid c) (ulid d)
    ∙ ulid-Later c d hc hd h

Fits-le : (room : ℕ) (c : Clock) → Fits room c → Fits 0 c
Fits-le room c h = omega arith

abbrev pub AllFit : ℕ → List Reading → Type 0
AllFit room = All (ReadingFits room)

ReadingFits-pred : (room : ℕ) (rs : List Reading) → AllFit (suc room) rs → AllFit room rs
ReadingFits-pred room List.[] h = tt
ReadingFits-pred room (List.◌∷◌ r rs) (p, h) = ((omega arith, p.1), ReadingFits-pred room rs h)

above_step :
    (p : String) (b c d : Clock)
    → str_ltb (new_id p c) (new_id p d) ≡ true
    → (b ≡ c) ⊎ (str_ltb (new_id p b) (new_id p c) ≡ true)
    → str_ltb (new_id p b) (new_id p d) ≡ true
above_step p b c d step (inl same) = rw same step
above_step p b c d step (inr below) =
    str_ltb_trans (new_id p b) (new_id p c) (new_id p d) below step

-- Every id of a run is above each id that the process minted before the run.
new_ids-above :
    (p : String) (b c : Clock) (rs : List Reading)
    → Fits 0 b
    → Fits (length rs) c
    → AllFit (length rs) rs
    → (b ≡ c) ⊎ (str_ltb (new_id p b) (new_id p c) ≡ true)
    → All (λ i. str_ltb (new_id p b) i ≡ true) (new_ids p c rs)
unfolding new_ids
new_ids-above p b c List.[] hb hc h k = tt
new_ids-above p b c (List.◌∷◌ r rs) hb hc (hr, h) k =
    let d = tick c r in
    let hd : Fits (length rs) d = tick-Fits (length rs) c r hc hr in
    let step = new_id-Later p c d (Fits-le _ c hc) (Fits-le _ d hd) (tick-Later c r hc.rand_fits) in
    let above : str_ltb (new_id p b) (new_id p d) ≡ true = above_step p b c d step k in
    (above, new_ids-above p b d rs hb hd (ReadingFits-pred _ rs h) (inr above))

-- The ids that successive calls of `new_id` return stand in strictly ascending order as texts, each
-- one below every later one, whatever the wall clock reads (it may stand still or go backwards), from
-- every state and for every random field of 80 bits, as long as the time field, which each call
-- advances by at most one past its readings, stays below 2^50 milliseconds.
pub new_ids-Pairwise :
    (p : String) (c : Clock) (rs : List Reading)
    → Fits (length rs) c
    → AllFit (length rs) rs
    → Pairwise (λ i j. str_ltb i j ≡ true) (new_ids p c rs)
unfolding new_ids
new_ids-Pairwise p c List.[] hc h = tt
new_ids-Pairwise p c (List.◌∷◌ r rs) hc (hr, h) =
    let d = tick c r in
    let hd : Fits (length rs) d = tick-Fits (length rs) c r hc hr in
    let rest = ReadingFits-pred _ rs h in
    (new_ids-above p d d rs (Fits-le _ d hd) hd rest (inl refl), new_ids-Pairwise p d rs hd rest)
