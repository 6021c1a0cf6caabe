-- ===== src/Events/Names.antt =====
-- The two patterns of domain/events.py, `_EVENT_RE` and `_TOPIC_RE`, as the automata that they
-- describe. `$` also stands before a line feed that ends the text, as in Python.
use Prim.Native.String.{[], ◌∷◌}
use beacn.Base.{ℕ, zero, suc, Bool, true, false, ◌&&◌, ◌||◌, String, code, leb, eqb, if◌then◌else◌}

-- [A-Za-z0-9]
abbrev pub is_alnum : ℕ → Bool
is_alnum c = leb b'A' c && leb c b'Z' || leb b'a' c && leb c b'z' || leb b'0' c && leb c b'9'

-- [A-Za-z0-9_-]
abbrev pub is_word : ℕ → Bool
is_word c = is_alnum c || eqb c b'_' || eqb c b'-'

-- Where the automaton stands: before the first character of a segment, in a segment, behind a line
-- feed, or nowhere. `n` counts the dots (for a topic, the colon) that may still come.
pub data Mode : Type 0 where
  start inside : ℕ → Mode
  ended : Mode
  failed : Mode

abbrev pub accepts : Mode → Bool
accepts (start n) = false
accepts (inside n) = true
accepts ended = true
accepts failed = false

abbrev next_segment : ℕ → Mode
next_segment zero = failed
next_segment (suc n) = start n

abbrev pub event_step : Mode → ℕ → Mode
event_step (start n) c = if is_alnum c then inside n else failed
event_step (inside n) c =
    if is_word c
    then inside n
    else if eqb c b'.'
    then next_segment n
    else if eqb c 10
    then ended
    else failed
event_step ended c = failed
event_step failed c = failed

-- In the first part of a topic a colon begins the second, where colons are ordinary.
abbrev colon_step : ℕ → Mode
colon_step zero = inside 0
colon_step (suc n) = start n

abbrev pub topic_step : Mode → ℕ → Mode
topic_step (start n) c = if is_alnum c then inside n else failed
topic_step (inside n) c =
    if is_word c || eqb c b'.'
    then inside n
    else if eqb c b':'
    then colon_step n
    else if eqb c 10
    then ended
    else failed
topic_step ended c = failed
topic_step failed c = failed

unfoldable pub run_event : Mode → String → Bool
run_event mode [] = accepts mode
run_event mode (c ∷ s) = run_event (event_step mode (code c)) s

unfoldable pub run_topic : Mode → String → Bool
run_topic mode [] = accepts mode
run_topic mode (c ∷ s) = run_topic (topic_step mode (code c)) s

-- `_EVENT_RE.match(name)`: one to eight segments.
unfoldable pub matches_event : String → Bool
unfolding run_event
matches_event name = run_event (start 7) name

-- `_TOPIC_RE.match(name)`
unfoldable pub matches_topic : String → Bool
unfolding run_topic
matches_topic name = run_topic (start 1) name
