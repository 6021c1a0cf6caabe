-- ===== src/Control/Topics.antt =====
-- `topics_upsert` of routes/api/control.py: how a topic is created and configured. Its body is read with
-- the fields typed as clients send them, but for `propagate_to`, which the handler checks itself.
pub mod Targets
pub mod Effect
pub mod Tests
use beacn.Base.{
  ℕ, ltb, Bool, true, false, ◌&&◌, ◌||◌, not, String, List, [], ◌∷◌, ◌++◌, map, Option, none, some,
  or_default, is_empty, elem, find, length, ◌==◌, if◌then◌else◌,
}
use beacn.Base.Int.{ℤ}
use beacn.Base.Strip.{strip}
use beacn.Base.Json.{Json, null, bool, num, str, arr, obj, nil, is_true}
use beacn.Errors.{Result, ok, err, ◌>>=◌, invalid}
use beacn.Events.{is_valid_topic_name, items}
use beacn.Ingest as Ingest
use beacn.Ingest.{invalidate_topic_cache}

-- A row of `topics`, as far as it is configured.
pub record TopicConfig : Type 0 where
  pub id : String
  pub environment : String
  pub name : String
  pub visibility : String
  pub persist : Bool
  pub retention_hours : Option ℤ
  pub description : Option String
  pub propagate_to : List String

-- The body. `visibility` and `description` are none where the body does not have them or has null, the
-- fields behind them where the body does not have them. `persist` is some false, and
-- `retention_hours` some none, where the body has a value that Python counts as false, such as 0.
pub record TopicForm : Type 0 where
  pub name : String
  pub environment : String
  pub visibility : Option String
  pub description : Option String
  pub persist : Option Bool
  pub retention_hours : Option (Option ℤ)
  pub propagate_to : Option Json

-- `MAX_PROPAGATE_TARGETS`
abbrev pub max_propagate_targets : ℕ
max_propagate_targets = 20

-- `(target or "").strip() if isinstance(target, str) else ""`
abbrev pub target_of : Json → String
target_of (str s) = strip s
target_of _ = ""

-- The loop over the targets; `seen` is in the order of the appends.
unfoldable pub collect_targets : String → List String → List Json → Result (List String)
collect_targets name seen [] = ok seen
collect_targets name seen (raw ∷ raws) =
    let target = target_of raw in
    let skipped = collect_targets name seen raws in
    let taken = collect_targets name (seen ++ target ∷ []) raws in
    if is_empty target || target == name || elem target seen
    then skipped
    else if is_valid_topic_name (str target)
    then taken
    else invalid "not a valid topic name"

-- `data["propagate_to"] or []`, if it is a list.
abbrev pub raw_targets : Json → Result (List Json)
raw_targets (arr vs) = ok (items vs)
raw_targets v = if is_true v then invalid "propagate_to must be a list of topic names" else ok []

abbrev pub at_most_max : List String → Result (List String)
at_most_max targets =
    if ltb max_propagate_targets (length targets)
    then invalid "propagate_to holds at most 20 topics"
    else ok targets

-- `propagate_to`, none where the body has no such field.
unfoldable pub targets_of : String → Option Json → Result (Option (List String))
targets_of name none = ok none
targets_of name (some v) = do
  raws ← raw_targets v
  targets ← collect_targets name [] raws
  held ← at_most_max targets
  ok (some held)

abbrev pub is_config : String → String → TopicConfig → Bool
is_config environment name row = row.environment == environment && row.name == name

-- `Topic(id=new_ulid(), environment=environment, name=name)`, with the defaults of the columns.
abbrev pub new_topic : String → String → String → TopicConfig
new_topic id environment name = record {
  id = id;
  environment = environment;
  name = name;
  visibility = "public";
  persist = true;
  retention_hours = none;
  description = none;
  propagate_to = [];
}

-- What the body changes in the row.
unfoldable pub configured : TopicForm → Option (List String) → TopicConfig → TopicConfig
configured form targets row = record row {
  visibility = or_default form.visibility row.visibility;
  description = elim form.description [ none ↦ row.description | some d ↦ some d ];
  persist = or_default form.persist row.persist;
  retention_hours = or_default form.retention_hours row.retention_hours;
  propagate_to = or_default targets row.propagate_to;
}

-- `row.save()`: over the row of that name, or behind all of them.
unfoldable pub save : TopicConfig → List TopicConfig → List TopicConfig
save row [] = row ∷ []
save row (r ∷ rows) =
    let rest = save row rows in
    if is_config row.environment row.name r then row ∷ rows else r ∷ rest

-- A row as ingestion reads it.
abbrev pub read_row : TopicConfig → Ingest.TopicRow
read_row row = record {
  environment = row.environment;
  name = row.name;
  persist = row.persist;
  propagate_to = row.propagate_to;
}

-- The tables and the process behind the handler: ingestion reads the topics that are saved here.
abbrev pub with_topics : List TopicConfig → Ingest.State → Ingest.State
with_topics rows s = record s { topics = map read_row rows }

-- The environment that the body means.
abbrev pub environment_of : TopicForm → String
environment_of form = if is_empty form.environment then "development" else form.environment

abbrev pub is_new : Option TopicConfig → Bool
is_new none = true
is_new (some row) = false

-- The row behind the validation, as it is saved.
abbrev pub row_of : String → TopicForm → Option (List String) → List TopicConfig → TopicConfig
row_of id form targets rows =
    let name = strip form.name in
    configured form targets (
      or_default (find (is_config (environment_of form) name) rows)
        (new_topic id (environment_of form) name))

-- `topics_upsert(ctx)`: whether the topic was created, and the rows. `id` is the id that is drawn.
unfoldable pub topics_upsert :
    String
    → TopicForm
    → List TopicConfig × Ingest.State
    → Result (Bool × (List TopicConfig × Ingest.State))
topics_upsert id form (rows, s) =
    if is_empty (strip form.name)
    then invalid "name is required"
    else targets_of (strip form.name) form.propagate_to >>= λ targets.
        let saved = save (row_of id form targets rows) rows in
        ok (
          is_new (find (is_config (environment_of form) (strip form.name)) rows),
          (saved, invalidate_topic_cache (with_topics saved s)),
        )
