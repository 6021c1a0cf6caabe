-- ===== src/Base/Strip.antt =====
-- `str.strip()`, and the characters that Python's `str.isspace` counts as white space.
use Prim.Native.Nat.{ℕ}
use Prim.Native.Char.{code}
use Prim.Native.String.{String, [], ◌∷◌}
use mathlib.Core.Bool.{Bool, ◌&&◌, ◌||◌}
use beacn.Base.Tests.{leb, eqb, if◌then◌else◌}
use beacn.Base.Text.{is_empty}

abbrev pub is_space : ℕ → Bool
is_space c =
    leb 9 c && leb c 13
    || leb 28 c && leb c 32
    || eqb c 133
    || eqb c 160
    || eqb c 5760
    || leb 8192 c && leb c 8202
    || eqb c 8232
    || eqb c 8233
    || eqb c 8239
    || eqb c 8287
    || eqb c 12288

unfoldable pub strip_left : String → String
strip_left [] = ""
strip_left (c ∷ s) = let rest = strip_left s in if is_space (code c) then rest else c ∷ s

unfoldable pub strip_right : String → String
strip_right [] = ""
strip_right (c ∷ s) =
    let rest = strip_right s in if is_empty rest && is_space (code c) then "" else c ∷ rest

unfoldable pub strip : String → String
unfolding strip_left strip_right
strip s = strip_left (strip_right s)
