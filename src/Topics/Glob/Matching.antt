-- ===== src/Topics/Glob/Matching.antt =====
-- The matcher decides the relation that the tokens of a pattern describe.
use Prim.Native.String.{[], ◌∷◌}
use beacn.Base.{
  Bool, true, false, ◌||◌, ◌≡◌, refl, ◌↔◌, ◌⊎◌, inl, inr, String, Char, code, List, arith,
  and-eq-true,
}
use beacn.Topics.Glob.{Token, star, any_char, lit, set, takes, match, parse, fnmatchcase}

-- `*` stands for any characters, every other token for one character that it takes.
pub data Matches : List Token → String → Type 0 where
  done : Matches List.[] ""
  empty : {ts : List Token} {s : String} → Matches ts s → Matches (List.◌∷◌ star ts) s
  more :
      {ts : List Token} {c : Char} {s : String}
      → Matches (List.◌∷◌ star ts) s
      → Matches (List.◌∷◌ star ts) (c ∷ s)
  one :
      {t : Token} {ts : List Token} {c : Char} {s : String}
      → takes t (code c) ≡ true
      → Matches ts s
      → Matches (List.◌∷◌ t ts) (c ∷ s)

or-cases : (a b : Bool) → (a || b) ≡ true → (a ≡ true) ⊎ (b ≡ true)
or-cases true b h = inl refl
or-cases false b h = inr h

match_sound : (ts : List Token) (s : String) → match ts s ≡ true → Matches ts s
unfolding match
match_sound List.[] [] h = done
match_sound List.[] (c ∷ s) h = absurd (cc)
match_sound (List.◌∷◌ star ts) [] h = empty (match_sound ts [] h)
match_sound (List.◌∷◌ star ts) (c ∷ s) h =
    elim (or-cases (match ts (c ∷ s)) (match (List.◌∷◌ star ts) s) h) [
      | inl now ↦ empty (match_sound ts (c ∷ s) now)
      | inr later ↦ more (match_sound (List.◌∷◌ star ts) s later)
    ]
match_sound (List.◌∷◌ any_char ts) [] h = absurd (cc)
match_sound (List.◌∷◌ (lit d) ts) [] h = absurd (cc)
match_sound (List.◌∷◌ (set b rs) ts) [] h = absurd (cc)
match_sound (List.◌∷◌ any_char ts) (c ∷ s) h = one refl (match_sound ts s h)
match_sound (List.◌∷◌ (lit d) ts) (c ∷ s) h =
    let (here, later) = and-eq-true _ _ h in one here (match_sound ts s later)
match_sound (List.◌∷◌ (set b rs) ts) (c ∷ s) h =
    let (here, later) = and-eq-true _ _ h in one here (match_sound ts s later)

match_star : (ts : List Token) (s : String) → match ts s ≡ true → match (List.◌∷◌ star ts) s ≡ true
unfolding match
match_star ts [] h = h
match_star ts (c ∷ s) h = rw h

match_longer :
    (ts : List Token) (c : Char) (s : String)
    → match (List.◌∷◌ star ts) s ≡ true
    → match (List.◌∷◌ star ts) (c ∷ s) ≡ true
unfolding match
match_longer ts c s h = ground arith

match_one :
    (t : Token) (ts : List Token) (c : Char) (s : String)
    → takes t (code c) ≡ true
    → match ts s ≡ true
    → match (List.◌∷◌ t ts) (c ∷ s) ≡ true
unfolding match
match_one star ts c s h k = absurd (cc)
match_one t ts c s h k = ground arith

match_complete : {ts : List Token} {s : String} → Matches ts s → match ts s ≡ true
match_complete done = unfold match in refl
match_complete (empty {ts} {s} m) = match_star ts s (match_complete m)
match_complete (more {ts} {c} {s} m) = match_longer ts c s (match_complete m)
match_complete (one {t} {ts} {c} {s} h m) = match_one t ts c s h (match_complete m)

-- A name matches a pattern exactly when the relation that the pattern's tokens describe holds of it:
-- `*` for any characters, `?`, a set or a literal for one character that it takes.
pub fnmatchcase_iff :
    (name pattern : String) → (fnmatchcase name pattern ≡ true) ↔ Matches (parse pattern) name
unfolding fnmatchcase
fnmatchcase_iff name pattern = (match_sound (parse pattern) name, match_complete)

matches_all : (s : String) → Matches (List.◌∷◌ star List.[]) s
matches_all [] = empty done
matches_all (c ∷ s) = more (matches_all s)

-- The pattern "*" covers every name.
pub fnmatchcase_star : (name : String) → fnmatchcase name "*" ≡ true
unfolding fnmatchcase
fnmatchcase_star name = match_complete (matches_all name)
