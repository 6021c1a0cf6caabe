-- ===== src/Sdk/Sse.antt =====
-- `_iter_sse` of sdk/python/beacn.py: the payloads of a stream of server-sent events. A line is a text
-- with its end; `loads` is `json.loads`, none where it raises ValueError.
pub mod RoundTrip
use Prim.Native.String.{◌∷◌}
use Prim.Native.String
use beacn.Base.{
  ℕ, zero, suc, Bool, true, false, ◌&&◌, String, List, ◌++◌, Option, none, some, or_default,
  is_empty, eqb, code, if◌then◌else◌,
}
use beacn.Base.Json.{Json, str}
use beacn.Events.{has_prefix}

-- `s.rstrip(c)` and `s.lstrip(c)`, of one character.
unfoldable pub rstrip : ℕ → String → String
rstrip c String.[] = ""
rstrip c (x ∷ s) = let rest = rstrip c s in if is_empty rest && eqb (code x) c then "" else x ∷ rest

unfoldable pub lstrip : ℕ → String → String
lstrip c String.[] = ""
lstrip c (x ∷ s) = let rest = lstrip c s in if eqb (code x) c then rest else x ∷ s

-- `s[n:]`
abbrev pub drop_chars : ℕ → String → String
drop_chars zero s = s
drop_chars (suc n) String.[] = ""
drop_chars (suc n) (x ∷ s) = drop_chars n s

-- `"\n".join(lines)`
unfoldable pub join_lines : List String → String
join_lines List.[] = ""
join_lines (List.◌∷◌ s List.[]) = s
join_lines (List.◌∷◌ s (List.◌∷◌ t more)) =
    String.◌++◌ s (String.◌++◌ "\n" (join_lines (List.◌∷◌ t more)))

abbrev pub without_end : String → String
without_end line = rstrip b'\r' (rstrip b'\n' line)

module _ (loads : String → Option Json) where
  -- The decoded payload, or the text itself where it is no JSON.
  abbrev pub decoded : List String → Json
  decoded buf = or_default (loads (join_lines buf)) (str (join_lines buf))

  -- `if buf: yield …`
  abbrev pub flush : List String → List Json → List Json
  flush List.[] rest = rest
  flush (List.◌∷◌ s buf) rest = List.◌∷◌ (decoded (List.◌∷◌ s buf)) rest

  abbrev pub buffered : String → List String → List String
  buffered line buf =
      if has_prefix ":" line
      then buf
      else if has_prefix "data:" line
      then buf ++ List.◌∷◌ (lstrip b' ' (drop_chars 5 line)) List.[]
      else buf

  unfoldable pub iter_sse : List String → List String → List Json
  iter_sse buf List.[] = List.[]
  iter_sse buf (List.◌∷◌ line_bytes lines) =
      let line = without_end line_bytes in
      elim (is_empty line) [
        | true ↦ flush buf (iter_sse List.[] lines)
        | false ↦ iter_sse (buffered line buf) lines
      ]
