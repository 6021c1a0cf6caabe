-- ===== src/Base/Text.antt =====
-- Python's `str`: the native `String`, walked by its own constructors where the program looks
-- inside a text. `str_ltb` is Python's `<` on `str`, by code points.
use Prim.Native.Nat.{ℕ, suc, compare, Ordering}
use Prim.Native.Char.{code}
use Prim.Native.String.{String, [], ◌∷◌}
use mathlib.Core.Path.{◌≡◌, refl}
use mathlib.Core.Bool.{Bool, true, false, ◌||◌}
use mathlib.Core.List.{List}
use native.Mathlib.Omega.{arith}
use text.Mathlib.Text.{◌==◌}
use text.Mathlib.TextEquality.{Char-path}

-- `len(s)`: characters.
abbrev pub size : String → ℕ
size [] = 0
size (c ∷ s) = suc (size s)

-- `s == ""`; `not s`.
abbrev pub is_empty : String → Bool
is_empty [] = true
is_empty (c ∷ s) = false

-- `s < t`
abbrev pub str_ltb : String → String → Bool
str_ltb s [] = false
str_ltb [] (d ∷ t) = true
str_ltb (c ∷ s) (d ∷ t) = elim (compare (code c) (code d)) [
  | Ordering.lt ↦ true
  | Ordering.eq ↦ str_ltb s t
  | Ordering.gt ↦ false
]

pub str_ltb_irrefl : (s : String) → str_ltb s s ≡ false
str_ltb_irrefl [] = refl
str_ltb_irrefl (c ∷ s) = ground (arith, str_ltb_irrefl s)

pub str_ltb_trans : (s t u : String) → str_ltb s t ≡ true → str_ltb t u ≡ true → str_ltb s u ≡ true
str_ltb_trans s t [] h k = absurd (cc)
str_ltb_trans [] t (e ∷ u) h k = refl
str_ltb_trans (c ∷ s) [] (e ∷ u) h k = absurd (cc)
str_ltb_trans (c ∷ s) (d ∷ t) (e ∷ u) h k = ground (arith, str_ltb_trans s t u)

pub str_ltb_asym : (s t : String) → str_ltb s t ≡ true → str_ltb t s ≡ false
str_ltb_asym s [] h = absurd (cc)
str_ltb_asym [] (d ∷ t) h = refl
str_ltb_asym (c ∷ s) (d ∷ t) h = ground (arith, str_ltb_asym s t)

-- Two texts of which neither is less are the same text.
pub str_ltb_total : (s t : String) → str_ltb s t ≡ false → str_ltb t s ≡ false → s ≡ t
str_ltb_total [] [] h k = refl
str_ltb_total [] (d ∷ t) h k = absurd (cc)
str_ltb_total (c ∷ s) [] h k = absurd (cc)
str_ltb_total (c ∷ s) (d ∷ t) h k = ground (arith, Char-path c d, str_ltb_total s t)

-- `x in xs`, for texts.
abbrev pub elem : String → List String → Bool
elem k List.[] = false
elem k (List.◌∷◌ x xs) = k == x || elem k xs
