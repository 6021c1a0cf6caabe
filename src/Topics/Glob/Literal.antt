-- ===== src/Topics/Glob/Literal.antt =====
-- A pattern with no signs matches itself.
use Prim.Native.String.{[], ◌∷◌}
use beacn.Base.{ℕ, ◌≡◌, refl, true, false, String, code, eqb, arith}
use beacn.Topics.Glob.{parse_from, match, fnmatchcase}

-- The text has no character `c`.
abbrev pub Lacks : ℕ → String → Type 0
Lacks c [] = Unit
Lacks c (x ∷ s) = (eqb (code x) c ≡ false) × Lacks c s

eqb_refl : (n : ℕ) → eqb n n ≡ true
eqb_refl n = ground arith

match-literal :
    (t : String) → Lacks b'*' t → Lacks b'?' t → Lacks b'[' t → match (parse_from 0 t) t ≡ true
unfolding match
match-literal [] h k l = refl
match-literal (c ∷ t) h k l =
    rw (h.0, k.0, l.0) (rw (eqb_refl (code c)) (match-literal t h.1 k.1 l.1))

pub fnmatchcase-literal :
    (t : String) → Lacks b'*' t → Lacks b'?' t → Lacks b'[' t → fnmatchcase t t ≡ true
unfolding fnmatchcase
fnmatchcase-literal t h k l = match-literal t h k l
