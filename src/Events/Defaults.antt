-- ===== src/Events/Defaults.antt =====
-- What `ingest` fills in, and the one exception that it lets through.
use Prim.Native.String.{[], ◌∷◌}
use beacn.Base.{
  ℕ, ◌≡◌, refl, ap, ◌∙◌, true, false, String, Option, none, arith, eqb, code, Char, inl, inr,
  Bool-cases,
}
use beacn.Base.Int.{ℤ}
use beacn.Base.Json.{null, num, obj, Fields, get}
use beacn.Errors.{ok, err, uncaught}
use beacn.Events.{
  ProducerContext, Python, Time, clean_str, first_segment, parse_dt, event_name, topic_name, Core,
  core_of, text_at, optional_of, ingest_object, ingest,
}
use beacn.Events.Validation.{event_name_lem}
use beacn.Events.Names.{
  start, inside, ended, failed, is_alnum, is_word, event_step, topic_step, run_event, run_topic,
  matches_event, matches_topic,
}

stuck_event : (s : String) → run_event failed s ≡ false
unfolding run_event
stuck_event [] = refl
stuck_event (c ∷ s) = stuck_event s

after_feed : (s : String) → run_event ended s ≡ true → s ≡ ""
unfolding run_event
after_feed [] h = refl
after_feed (c ∷ s) h = absurd (cc (stuck_event s))

-- What is neither part of a segment nor a dot can only be the line feed at the end.
last_feed :
    (n : ℕ) (c : Char) (s : String)
    → is_word (code c) ≡ false
    → eqb (code c) b'.' ≡ false
    → run_event (event_step (inside n) (code c)) s ≡ true
    → run_topic (topic_step (inside 1) (code c)) (first_segment s) ≡ true
unfolding run_event run_topic first_segment
last_feed n c s odd other h = elim (Bool-cases (eqb (code c) 10)) [
  | inl feed ↦
      let bare : s ≡ "" = after_feed s (ground arith) in
      let colon : eqb (code c) b':' ≡ false = ground arith in
      rw (odd, other, colon, feed, bare) refl
  | inr stray ↦ absurd (ground (arith, stuck_event s))
]

kept_head :
    (c : Char) (s : String)
    → eqb (code c) b'.' ≡ false
    → first_segment (c ∷ s) ≡ c ∷ first_segment s
unfolding first_segment
kept_head c s other = rw other

topic_word :
    (c : Char) (s : String)
    → is_word (code c) ≡ true
    → run_topic (inside 1) (c ∷ s) ≡ run_topic (inside 1) s
unfolding run_topic
topic_word c s word = rw word

topic_alnum :
    (c : Char) (s : String)
    → is_alnum (code c) ≡ true
    → run_topic (start 1) (c ∷ s) ≡ run_topic (inside 1) s
unfolding run_topic
topic_alnum c s alnum = rw alnum

-- While the event pattern runs through its first segment, the topic pattern runs along.
segment-inside :
    (n : ℕ) (s : String)
    → run_event (inside n) s ≡ true
    → run_topic (inside 1) (first_segment s) ≡ true
unfolding run_event run_topic first_segment
segment-inside n [] h = refl
segment-inside n (c ∷ s) h = elim (Bool-cases (eqb (code c) b'.')) [
  | inl dot ↦ rw dot refl
  | inr other ↦ elim (Bool-cases (is_word (code c))) [
    | inl word ↦
        ap (run_topic (inside 1)) (kept_head c s other)
        ∙ topic_word c (first_segment s) word
        ∙ segment-inside n s (rw word at h)
    | inr odd ↦ rw other (last_feed n c s odd other h)
  ]
]

segment-start :
    (n : ℕ) (s : String)
    → run_event (start n) s ≡ true
    → run_topic (start 1) (first_segment s) ≡ true
unfolding run_event run_topic first_segment
segment-start n [] h = absurd (cc)
segment-start n (c ∷ s) h = elim (Bool-cases (is_alnum (code c))) [
  | inl alnum ↦
      let plain : eqb (code c) b'.' ≡ false = ground arith in
      ap (run_topic (start 1)) (kept_head c s plain)
      ∙ topic_alnum c (first_segment s) alnum
      ∙ segment-inside n s (rw alnum at h)
  | inr odd ↦ absurd (cc (stuck_event s, rw odd at h))
]

-- The first segment of a valid event name is a valid topic.
pub matches_topic-first_segment :
    (name : String) → matches_event name ≡ true → matches_topic (first_segment name) ≡ true
unfolding matches_event matches_topic
matches_topic-first_segment name h = segment-start 7 name h

-- A body without a topic is never refused for its topic: the event's first segment serves, and it is
-- always a valid topic. The event's name has been accepted before.
pub topic_name_default :
    (body : Fields) (name : String)
    → event_name body ≡ ok name
    → get body "topic" ≡ null
    → topic_name body name ≡ ok (first_segment name)
unfolding topic_name clean_str
topic_name_default body name h missing =
    rw missing (rw (matches_topic-first_segment name (event_name_lem body name h).0) refl)

-- A numeric `occurred_at` that `datetime.fromtimestamp` refuses ends in an exception that is no
-- error of the domain, where everything before it in the body is valid.
pub occurred_at_uncaught :
    (py : Python) (body : Fields) (ctx : ProducerContext) (ts : Time) (id : String) (c : Core)
    (source : Option String) (n : ℤ) (d : ℕ)
    → core_of py body ≡ ok c
    → text_at body "source" ≡ ok source
    → get body "occurred_at" ≡ num n d
    → py.from_timestamp n d ≡ none
    → ingest py (obj body) ctx ts id ≡ err uncaught
unfolding ingest ingest_object optional_of parse_dt
occurred_at_uncaught py body ctx ts id c source n d core_ok source_ok given refused =
    rw (core_ok, source_ok, given, refused) refl
