-- ===== src/Control/Topics/Targets.antt =====
-- What a saved topic propagates to.
use beacn.Base.{
  ltb, ltb-false→le, ◌≤◌, ◌≡◌, refl, ap, sym, subst, ◌∙◌, Bool, true, false, ◌||◌, String, List, [],
  ◌∷◌, ◌++◌, Option, none, some, or_default, arith, is_empty, elem, find, length, All, All-append,
  Pairwise, and-eq-true, Bool-cases, inl, inr, ◌==◌, eq_iff, if◌then◌else◌,
}
use beacn.Base.Strip.{strip}
use beacn.Base.Json.{Json, str}
use beacn.Errors.{Result, ok, bind-eq-ok, ok-injective, invalid}
use beacn.Events.{is_valid_topic_name}
use beacn.Ingest as Ingest
use beacn.Control.Topics.{
  TopicConfig, TopicForm, max_propagate_targets, target_of, collect_targets, raw_targets,
  at_most_max, targets_of, is_config, new_topic, configured, save, environment_of, row_of,
  topics_upsert,
}

-- A name that a topic of the name `name` may propagate to.
unfoldable pub IsTarget : String → String → Type 0
IsTarget name t = (is_valid_topic_name (str t) ≡ true) × ((t == name) ≡ false)

-- Different names of other topics, at most twenty.
pub record IsSound (name : String) (targets : List String) : Type 0 where
  pub each : All (IsTarget name) targets
  pub different : Pairwise (λ s t. (s == t) ≡ false) targets
  pub few : length targets ≤ max_propagate_targets

unfoldable pub AreSound : List TopicConfig → Type 0
AreSound rows = All (λ row. IsSound row.name row.propagate_to) rows

or-false : (a b : Bool) → (a || b) ≡ false → (a ≡ false) × (b ≡ false)
or-false false b h = (refl, h)
or-false true b h = absurd (cc)

-- A new name behind different ones.
Pairwise-last :
    (seen : List String) (t : String)
    → Pairwise (λ s t. (s == t) ≡ false) seen
    → elem t seen ≡ false
    → Pairwise (λ s t. (s == t) ≡ false) (seen ++ t ∷ [])
Pairwise-last [] t h new = (tt, tt)
Pairwise-last (s ∷ seen) t h new =
    let (apart, rest) = or-false (t == s) (elem t seen) new in
    (
      All-append (λ x. (s == x) ≡ false) seen (t ∷ []) h.0 (differs apart, tt),
      Pairwise-last seen t h.1 rest,
    )
  where
    differs : (t == s) ≡ false → (s == t) ≡ false
    differs apart = ground (arith, apart, eq_iff t s, eq_iff s t)

if-eq :
    (b : Bool) (m : Result (List String)) (targets : List String)
    → (if b then m else invalid "not a valid topic name") ≡ ok targets
    → (b ≡ true) × (m ≡ ok targets)
if-eq true m targets h = (refl, h)
if-eq false m targets h = absurd (cc)

collect_targets-IsTarget :
    (name : String) (seen : List String) (raws : List Json) (targets : List String)
    → collect_targets name seen raws ≡ ok targets
    → All (IsTarget name) seen
    → Pairwise (λ s t. (s == t) ≡ false) seen
    → All (IsTarget name) targets × Pairwise (λ s t. (s == t) ≡ false) targets
unfolding collect_targets IsTarget
collect_targets-IsTarget name seen [] targets h each different =
    subst (λ ts. All (IsTarget name) ts × Pairwise (λ s t. (s == t) ≡ false) ts) (ok-injective h)
      (each, different)
collect_targets-IsTarget name seen (raw ∷ raws) targets h each different =
    elim (Bool-cases
      (is_empty (target_of raw) || target_of raw == name || elem (target_of raw) seen)) [
        | inl skips ↦ collect_targets-IsTarget name seen raws targets (rw skips at h) each different
        | inr new ↦
            let (differs, fresh) =
              or-false (is_empty (target_of raw) || target_of raw == name)
                (elem (target_of raw) seen) new in
            let (full, apart) =
              or-false (is_empty (target_of raw)) (target_of raw == name) differs in
            let (valid, taken) =
              if-eq (is_valid_topic_name (str (target_of raw)))
                (collect_targets name (seen ++ target_of raw ∷ []) raws) targets (rw new at h) in
            collect_targets-IsTarget name (seen ++ target_of raw ∷ []) raws targets taken
              (All-append (IsTarget name) seen (target_of raw ∷ []) each ((valid, apart), tt))
              (Pairwise-last seen (target_of raw) different fresh)
      ]

few-at_most_max :
    (found held : List String)
    → at_most_max found ≡ ok held
    → (length found ≤ max_propagate_targets) × (found ≡ held)
few-at_most_max found held h = elim (Bool-cases (ltb max_propagate_targets (length found))) [
  | inl many ↦ absurd (ground (arith, h, many))
  | inr few ↦ (ltb-false→le max_propagate_targets (length found) few, ok-injective (rw few at h))
]

pub targets_of-IsSound :
    (name : String) (given : Option Json) (targets : List String)
    → targets_of name given ≡ ok (some targets)
    → IsSound name targets
unfolding targets_of
targets_of-IsSound name none targets h = absurd (cc)
targets_of-IsSound name (some v) targets h =
    let (raws, read, h1) = bind-eq-ok (raw_targets v) _ h in
    let (found, collected, h2) = bind-eq-ok (collect_targets name [] raws) _ h1 in
    let (held, counted, h3) = bind-eq-ok (at_most_max found) _ h2 in
    let (few, same) = few-at_most_max found held counted in
    let ends : found ≡ targets = same ∙ cc in
    let (each, different) = collect_targets-IsTarget name [] raws found collected tt tt in
    subst (IsSound name) ends (record { each = each; different = different; few = few })

configured-IsSound :
    (form : TopicForm) (name : String) (targets : Option (List String)) (row : TopicConfig)
    → ((ts : List String) → targets ≡ some ts → IsSound name ts)
    → IsSound name row.propagate_to
    → IsSound name (configured form targets row).propagate_to
unfolding configured
configured-IsSound form name none row given old = old
configured-IsSound form name (some ts) row given old = given ts refl

save-AreSound :
    (row : TopicConfig) (rows : List TopicConfig)
    → IsSound row.name row.propagate_to
    → AreSound rows
    → AreSound (save row rows)
unfolding save AreSound
save-AreSound row [] h hs = (h, tt)
save-AreSound row (r ∷ rows) h hs = elim (Bool-cases (is_config row.environment row.name r)) [
  | inl same ↦ rw same (h, hs.1)
  | inr other ↦ rw other (hs.0, save-AreSound row rows h hs.1)
]

found-IsSound :
    (environment name : String) (rows : List TopicConfig) (row : TopicConfig)
    → find (is_config environment name) rows ≡ some row
    → AreSound rows
    → IsSound name row.propagate_to × (row.name ≡ name)
unfolding AreSound
found-IsSound environment name [] row h hs = absurd (cc)
found-IsSound environment name (r ∷ rows) row h hs =
    elim (Bool-cases (is_config environment name r)) [
      | inl own ↦
          let here : some r ≡ some row = rw own at h in
          let same : r ≡ row = cc in
          let named : r.name ≡ name =
            (eq_iff r.name name).0
              (and-eq-true (r.environment == environment) (r.name == name) own).1 in
          subst (λ q. IsSound name q.propagate_to × (q.name ≡ name)) same
            (subst (λ n. IsSound n r.propagate_to) named hs.0, named)
      | inr other ↦ found-IsSound environment name rows row (rw other at h) hs.1
    ]

-- The row that is configured is sound, an old one or a new one.
base-IsSound :
    (id environment name : String) (o : Option TopicConfig)
    → ((row : TopicConfig) → o ≡ some row → IsSound name row.propagate_to × (row.name ≡ name))
    → IsSound name (or_default o (new_topic id environment name)).propagate_to
      × ((or_default o (new_topic id environment name)).name ≡ name)
base-IsSound id environment name none old =
    (record { each = tt; different = tt; few = omega arith }, refl)
base-IsSound id environment name (some row) old = old row refl

-- The row that is saved is sound, and has the name that the body gives.
row_of-IsSound :
    (id : String) (form : TopicForm) (targets : Option (List String)) (rows : List TopicConfig)
    → targets_of (strip form.name) form.propagate_to ≡ ok targets
    → AreSound rows
    → IsSound (row_of id form targets rows).name (row_of id form targets rows).propagate_to
unfolding configured
row_of-IsSound id form targets rows found hs =
    let name = strip form.name in
    let base =
      or_default (find (is_config (environment_of form) name) rows)
        (new_topic id (environment_of form) name) in
    let (old, named) =
      base-IsSound id (environment_of form) name (find (is_config (environment_of form) name) rows)
        (λ row known. found-IsSound (environment_of form) name rows row known hs) in
    subst (λ n. IsSound n (configured form targets base).propagate_to) (sym named)
      (configured-IsSound form name targets base
        (λ ts e. targets_of-IsSound name form.propagate_to ts (found ∙ ap ok e)) old)

-- However topics are saved, each topic propagates to at most twenty different topics with possible names,
-- none of which is the topic itself: `topics_upsert` keeps this of a table, whatever its body says.
pub topics_upsert-AreSound :
    (id : String) (form : TopicForm) (rows rows' : List TopicConfig) (s s' : Ingest.State)
    (created : Bool)
    → AreSound rows
    → topics_upsert id form (rows, s) ≡ ok (created, (rows', s'))
    → AreSound rows'
unfolding topics_upsert
topics_upsert-AreSound id form rows rows' s s' created hs h =
    elim (Bool-cases (is_empty (strip form.name))) [
      | inl nameless ↦ absurd (ground (arith, h, nameless))
      | inr named ↦
          let (targets, found, made) =
            bind-eq-ok (targets_of (strip form.name) form.propagate_to) _ (rw named at h) in
          let saved : save (row_of id form targets rows) rows ≡ rows' =
            ap (λ r. r.1.0) (ok-injective made) in
          subst AreSound saved (
            save-AreSound (row_of id form targets rows) rows
              (row_of-IsSound id form targets rows found hs) hs)
    ]
