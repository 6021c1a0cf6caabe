-- ===== src/Topics/Glob.antt =====
-- `fnmatch.fnmatchcase`, as domain/topics.py uses it on a topic and a pattern: `*`, `?`, `[seq]` and
-- `[!seq]` with ranges. A pattern is read into tokens, and the tokens are matched.
pub mod Matching
pub mod Literal
use Prim.Native.String
use Prim.Native.String.{[], ◌∷◌}
use beacn.Base.{
  ℕ, zero, suc, Bool, true, false, not, ◌&&◌, ◌||◌, String, Char, code, List, Option, none, some,
  leb, eqb, any, if◌then◌else◌,
}

-- The characters from one code point to another.
pub record Range : Type 0 where
  pub low : ℕ
  pub high : ℕ

pub data Token : Type 0 where
  star : Token
  any_char : Token
  lit : ℕ → Token
  set : Bool → List Range → Token

abbrev succ? : Option ℕ → Option ℕ
succ? none = none
succ? (some n) = some (suc n)

-- How many characters stand before the first "]".
abbrev find_close : String → Option ℕ
find_close [] = none
find_close (c ∷ s) = if eqb (code c) b']' then some 0 else succ? (find_close s)

-- A "]" that stands first in the set belongs to it.
abbrev after_first : String → Option ℕ
after_first [] = none
after_first (c ∷ s) = if eqb (code c) b']' then succ? (find_close s) else find_close (c ∷ s)

-- The length of what stands between "[" and its "]"; none where no "]" closes the set.
abbrev set_length : String → Option ℕ
set_length [] = none
set_length (c ∷ s) = if eqb (code c) b'!' then succ? (after_first s) else after_first (c ∷ s)

abbrev take_text : ℕ → String → String
take_text zero s = ""
take_text (suc n) [] = ""
take_text (suc n) (c ∷ s) = c ∷ take_text n s

abbrev one : Char → Range
one c = record { low = code c; high = code c }

-- `a-b` is a range, unless the dash stands first or last.
abbrev ranges : String → List Range
ranges [] = List.[]
ranges (a ∷ []) = List.◌∷◌ (one a) List.[]
ranges (a ∷ b ∷ []) = List.◌∷◌ (one a) (List.◌∷◌ (one b) List.[])
ranges (a ∷ b ∷ c ∷ s) =
    let range = List.◌∷◌ (record { low = code a; high = code c }) (ranges s) in
    let plain = List.◌∷◌ (one a) (ranges (b ∷ c ∷ s)) in if eqb (code b) b'-' then range else plain

abbrev set_token : String → Token
set_token [] = set true List.[]
set_token (c ∷ s) = if eqb (code c) b'!' then set false (ranges s) else set true (ranges (c ∷ s))

-- The tokens of a pattern, after `skip` characters that belong to a set already read.
abbrev parse_from : ℕ → String → List Token
parse_from skip [] = List.[]
parse_from (suc skip) (c ∷ s) = parse_from skip s
parse_from zero (c ∷ s) =
    if eqb (code c) b'*'
    then List.◌∷◌ star (parse_from 0 s)
    else if eqb (code c) b'?'
    then List.◌∷◌ any_char (parse_from 0 s)
    else if eqb (code c) b'['
    then elim (set_length s) [
      | none ↦ List.◌∷◌ (lit (code c)) (parse_from 0 s)
      | some n ↦ List.◌∷◌ (set_token (take_text n s)) (parse_from (suc n) s)
    ]
    else List.◌∷◌ (lit (code c)) (parse_from 0 s)

pub parse : String → List Token
parse pattern = parse_from 0 pattern

abbrev pub in_range : ℕ → Range → Bool
in_range c r = leb r.low c && leb c r.high

-- Whether a token that stands for one character takes this one.
abbrev pub takes : Token → ℕ → Bool
takes star c = false
takes any_char c = true
takes (lit d) c = eqb c d
takes (set true rs) c = any (in_range c) rs
takes (set false rs) c = not (any (in_range c) rs)

pub match : List Token → String → Bool
match List.[] [] = true
match List.[] (c ∷ s) = false
match (List.◌∷◌ star ts) [] = match ts []
match (List.◌∷◌ star ts) (c ∷ s) =
    let longer = match (List.◌∷◌ star ts) s in match ts (c ∷ s) || longer
match (List.◌∷◌ t ts) [] = false
match (List.◌∷◌ t ts) (c ∷ s) = takes t (code c) && match ts s

unfoldable pub fnmatchcase : String → String → Bool
unfolding match parse
fnmatchcase name pattern = match (parse pattern) name
