-- ===== src/Sdk/Sse/RoundTrip.antt =====
-- A stream that is printed by the format of server-sent events is read back.
use Prim.Native.String.{[], ◌∷◌}
use Prim.Native.String
use beacn.Base.{
  ℕ, ◌≡◌, refl, ap, sym, ◌∙◌, true, false, String, List, Option, is_empty, eqb, code, size, ◌++◌,
  arith, All, append_assoc, append-nil,
}
use text.Mathlib.TextLemmas.{nil-append, cons-append}
use beacn.Topics.Glob.Literal.{Lacks}
use beacn.Base.Json.{Json}
use beacn.Events.{has_prefix}
use beacn.Sdk.Sse.{rstrip, lstrip, drop_chars, without_end, decoded, flush, buffered, iter_sse}

Lacks-append : (c : ℕ) (s t : String) → Lacks c s → Lacks c t → Lacks c (String.◌++◌ s t)
Lacks-append c [] t h k = rw nil-append k
Lacks-append c (x ∷ s) t h k = rw cons-append (h.0, Lacks-append c s t h.1 k)

rstrip-Lacks : (c : ℕ) (s : String) → Lacks c s → rstrip c s ≡ s
unfolding rstrip
rstrip-Lacks c [] h = refl
rstrip-Lacks c (x ∷ s) h = ground (arith, rstrip-Lacks c s h.1)

-- The end of a line is taken off.
rstrip-line : (s : String) → Lacks b'\n' s → rstrip b'\n' (String.◌++◌ s "\n") ≡ s
unfolding rstrip
rstrip-line [] h = refl
rstrip-line (x ∷ s) h = rw cons-append (ground (arith, rstrip-line s h.1))

IsLine : String → Type 0
IsLine s = Lacks b'\n' s × Lacks b'\r' s

without_end-line : (s : String) → IsLine s → without_end (String.◌++◌ s "\n") ≡ s
unfolding IsLine
without_end-line s h = ap (rstrip b'\r') (rstrip-line s h.0) ∙ rstrip-Lacks b'\r' s h.1

has_prefix-append : (p t : String) → has_prefix p (String.◌++◌ p t) ≡ true
has_prefix-append [] t = refl
has_prefix-append (x ∷ p) t = rw cons-append (ground (arith, has_prefix-append p t))

drop_chars-append : (p t : String) → drop_chars (size p) (String.◌++◌ p t) ≡ t
drop_chars-append [] t = rw nil-append refl
drop_chars-append (x ∷ p) t = rw cons-append (drop_chars-append p t)

-- A text that begins with no blank.
abbrev pub IsFlush : String → Type 0
IsFlush [] = Unit
IsFlush (x ∷ s) = eqb (code x) b' ' ≡ false

lstrip-IsFlush : (s : String) → IsFlush s → lstrip b' ' s ≡ s
unfolding lstrip
lstrip-IsFlush [] h = refl
lstrip-IsFlush (x ∷ s) h = rw h refl

lstrip-blank : (s : String) → IsFlush s → lstrip b' ' (String.◌++◌ " " s) ≡ s
unfolding lstrip
lstrip-blank s h = rw (cons-append, nil-append) (lstrip-IsFlush s h)

-- What the service may send: a message of one line or more, or a comment that keeps the connection
-- open.
pub data Frame : Type 0 where
  message : (first : String) (more : List String) → Frame
  keepalive : (comment : String) → Frame

abbrev pub data_line : String → String
data_line s = String.◌++◌ (String.◌++◌ "data:" (String.◌++◌ " " s)) "\n"

abbrev pub data_lines : List String → List String
data_lines List.[] = List.◌∷◌ "\n" List.[]
data_lines (List.◌∷◌ s more) = List.◌∷◌ (data_line s) (data_lines more)

abbrev pub frame_lines : Frame → List String
frame_lines (message first more) = List.◌∷◌ (data_line first) (data_lines more)
frame_lines (keepalive comment) =
    List.◌∷◌ (String.◌++◌ (String.◌++◌ ":" comment) "\n") (List.◌∷◌ "\n" List.[])

abbrev pub stream_lines : List Frame → List String
stream_lines List.[] = List.[]
stream_lines (List.◌∷◌ f fs) = frame_lines f ++ stream_lines fs

-- A line of a message holds no end of a line, and begins with no blank.
abbrev pub IsData : String → Type 0
IsData s = Lacks b'\n' s × Lacks b'\r' s × IsFlush s

abbrev pub IsFrame : Frame → Type 0
IsFrame (message first more) = IsData first × All IsData more
IsFrame (keepalive comment) = Lacks b'\n' comment × Lacks b'\r' comment

module _ (loads : String → Option Json) where
  -- What a stream means, frame by frame.
  abbrev pub meaning : List Frame → List Json
  meaning List.[] = List.[]
  meaning (List.◌∷◌ (message first more) fs) =
      List.◌∷◌ (decoded loads (List.◌∷◌ first more)) (meaning fs)
  meaning (List.◌∷◌ (keepalive comment) fs) = meaning fs

  data-buffered :
      (s : String) (buf : List String)
      → IsData s
      → buffered loads (String.◌++◌ "data:" (String.◌++◌ " " s)) buf ≡ buf ++ List.◌∷◌ s List.[]
  data-buffered s buf h =
      let line = String.◌++◌ "data:" (String.◌++◌ " " s) in
      let read =
        ap (lstrip b' ') (drop_chars-append "data:" (String.◌++◌ " " s)) ∙ lstrip-blank s h.2 in
      let no_comment : has_prefix ":" line ≡ false = rw cons-append refl in
      rw (no_comment, has_prefix-append "data:" (String.◌++◌ " " s))
        (ap (λ t. buf ++ List.◌∷◌ t List.[]) read)

  abbrev step : List String → String → List String → List Json
  step buf line rest = elim (is_empty line) as (λ b. List Json) [
    | true ↦ flush loads buf (iter_sse loads List.[] rest)
    | false ↦ iter_sse loads (buffered loads line buf) rest
  ]

  iter_sse-step :
      (buf rest : List String) (line_bytes line : String)
      → without_end line_bytes ≡ line
      → iter_sse loads buf (List.◌∷◌ line_bytes rest) ≡ step buf line rest
  unfolding iter_sse
  iter_sse-step buf rest line_bytes line e = ap (λ line. step buf line rest) e

  iter_sse-filled :
      (buf rest : List String) (line : String)
      → IsLine line
      → is_empty line ≡ false
      → iter_sse loads buf (List.◌∷◌ (String.◌++◌ line "\n") rest)
        ≡ iter_sse loads (buffered loads line buf) rest
  iter_sse-filled buf rest line h filled =
      iter_sse-step buf rest (String.◌++◌ line "\n") line (without_end-line line h)
      ∙ (rw (filled, step) refl)

  iter_sse-blank :
      (buf rest : List String)
      → iter_sse loads buf (List.◌∷◌ "\n" rest) ≡ flush loads buf (iter_sse loads List.[] rest)
  unfolding iter_sse rstrip
  iter_sse-blank buf rest = refl

  iter_sse-data_line :
      (s : String) (buf rest : List String)
      → IsData s
      → iter_sse loads buf (List.◌∷◌ (data_line s) rest)
        ≡ iter_sse loads (buf ++ List.◌∷◌ s List.[]) rest
  unfolding IsLine
  iter_sse-data_line s buf rest h =
      let line = String.◌++◌ "data:" (String.◌++◌ " " s) in
      let filled : is_empty line ≡ false = rw cons-append refl in
      let plain : IsLine line = (
        Lacks-append b'\n' "data:" (String.◌++◌ " " s) (refl, (refl, (refl, (refl, (refl, tt)))))
            (Lacks-append b'\n' " " s (refl, tt) h.0),
        Lacks-append b'\r' "data:" (String.◌++◌ " " s) (refl, (refl, (refl, (refl, (refl, tt)))))
            (Lacks-append b'\r' " " s (refl, tt) h.1),
      ) in
      iter_sse-filled buf rest line plain filled
      ∙ ap (λ b. iter_sse loads b rest) (data-buffered s buf h)

  iter_sse-data_lines :
      (more buf rest : List String)
      → All IsData more
      → iter_sse loads buf (data_lines more ++ rest)
        ≡ flush loads (buf ++ more) (iter_sse loads List.[] rest)
  iter_sse-data_lines List.[] buf rest h =
      iter_sse-blank buf rest
      ∙ ap (λ b. flush loads b (iter_sse loads List.[] rest)) (sym (append-nil buf))
  iter_sse-data_lines (List.◌∷◌ s more) buf rest h =
      iter_sse-data_line s buf (data_lines more ++ rest) h.0
      ∙ iter_sse-data_lines more (buf ++ List.◌∷◌ s List.[]) rest h.1
      ∙ ap (λ b. flush loads b (iter_sse loads List.[] rest))
          (append_assoc buf (List.◌∷◌ s List.[]) more)

  iter_sse-keepalive :
      (comment : String) (rest : List String)
      → Lacks b'\n' comment × Lacks b'\r' comment
      → iter_sse loads List.[] (frame_lines (keepalive comment) ++ rest)
        ≡ iter_sse loads List.[] rest
  unfolding IsLine
  iter_sse-keepalive comment rest h =
      let line = String.◌++◌ ":" comment in
      let filled : is_empty line ≡ false = rw cons-append refl in
      let plain : IsLine line = (
        Lacks-append b'\n' ":" comment (refl, tt) h.0,
        Lacks-append b'\r' ":" comment (refl, tt) h.1,
      ) in
      iter_sse-filled List.[] (List.◌∷◌ "\n" rest) line plain filled
      ∙ (rw (has_prefix-append ":" comment) (iter_sse-blank List.[] rest))

  -- A stream of messages, each of any number of lines, with comments anywhere between them, is read
  -- back message by message: each is the JSON of its lines joined, or their text where it is no JSON. No
  -- line of a message or comment holds the end of a line, and no line of a message begins with a blank.
  pub iter_sse-stream_lines :
      (frames : List Frame)
      → All IsFrame frames
      → iter_sse loads List.[] (stream_lines frames) ≡ meaning frames
  unfolding iter_sse
  iter_sse-stream_lines List.[] h = refl
  iter_sse-stream_lines (List.◌∷◌ (message first more) frames) h =
      iter_sse-data_line first List.[] (data_lines more ++ stream_lines frames) h.0.0
      ∙ iter_sse-data_lines more (List.◌∷◌ first List.[]) (stream_lines frames) h.0.1
      ∙ ap (λ vs. List.◌∷◌ (decoded loads (List.◌∷◌ first more)) vs)
          (iter_sse-stream_lines frames h.1)
  iter_sse-stream_lines (List.◌∷◌ (keepalive comment) frames) h =
      iter_sse-keepalive comment (stream_lines frames) h.0 ∙ iter_sse-stream_lines frames h.1
