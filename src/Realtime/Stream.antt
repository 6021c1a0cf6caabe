-- ===== src/Realtime/Stream.antt =====
-- `realtime_sse` of routes/api/realtime.py: the topics that a consumer over server-sent events joins,
-- what it is sent, and how the stream ends.
use beacn.Base.{
  ℕ, Bool, true, not, String, List, [], ◌∷◌, ◌++◌, map, keep, Option, none, some, or_default,
  is_empty, eqb, code, length, ltb, if◌then◌else◌,
}
use beacn.Base.Strip.{strip}
use beacn.Topics.{Grant}
use beacn.Realtime.Session.{Backing, authorize}

abbrev push : Prim.Native.Char.Char → List String → List String
push c [] = String.◌∷◌ c "" ∷ []
push c (s ∷ more) = String.◌∷◌ c s ∷ more

-- `s.split(",")`
unfoldable pub split_commas : String → List String
split_commas String.[] = "" ∷ []
split_commas (String.◌∷◌ c s) =
    let rest = split_commas s in if eqb (code c) b',' then "" ∷ rest else push c rest

abbrev pub is_full : String → Bool
is_full s = not (is_empty s)

-- `[t.strip() for t in (topics or "").split(",") if t.strip()]`
unfoldable pub requested : Option String → List String
requested topics = keep is_full (map strip (split_commas (or_default topics "")))

-- The topics that are joined.
unfoldable pub allowed_topics : Backing → Grant → Option String → List String
allowed_topics backing grant topics = keep (authorize backing grant) (requested topics)

-- `_SseSink`: what waits in its queue, none being the end of the stream.
pub record Sink (A : Type 0) : Type 0 where
  pub queue : List (Option A)
  pub closed : Bool

module _ {A : Type 0} (maxsize : ℕ) where
  -- `queue.put_nowait(item)`, where a full queue is suppressed; a size of 0 is no bound.
  abbrev pub put_nowait : Option A → Sink A → Sink A
  put_nowait item sink =
      if eqb maxsize 0
      then record sink { queue = sink.queue ++ item ∷ [] }
      else if ltb (length sink.queue) maxsize
      then record sink { queue = sink.queue ++ item ∷ [] }
      else sink

  -- `send_json(payload)`
  unfoldable pub send_json : A → Sink A → Sink A
  send_json payload sink = if sink.closed then sink else put_nowait (some payload) sink

  -- `close()`
  unfoldable pub close : Sink A → Sink A
  close sink = put_nowait none (record sink { closed = true })
