-- ===== src/Settings/Production.antt =====
-- What a production deployment with no warnings has set.
use beacn.Base.{
  ◌≡◌, refl, ap, sym, ◌∙◌, Bool, true, false, not, String, List, [], ◌∷◌, Option, none, some,
  or_default, elem, ◌==◌, eq_iff, if◌then◌else◌,
}
use beacn.Base.Int.{ℤ}
use beacn.Base.Strip.{strip}
use beacn.Events.{has_prefix}
use beacn.Settings.{Config, config, bool_at, text_at, check_production, insecure_secret, true_words}

-- The five tests of the guard.
record Flags (c : Config) : Type 0 where
  secret : (c.secret_key == insecure_secret) ≡ false
  quiet : c.debug ≡ false
  secure : c.cookie_secure ≡ true
  stored : has_prefix "sqlite://" c.database_url ≡ false
  shared : (c.bus_backend == "redis") ≡ true

warned :
    (b : Bool) (text : String) (rest : List String)
    → (if b then text ∷ rest else rest) ≡ []
    → (b ≡ false) × (rest ≡ [])
warned true text rest h = absurd (cc)
warned false text rest h = (refl, h)

not-false : (b : Bool) → not b ≡ false → b ≡ true
not-false true h = refl
not-false false h = absurd (cc)

check_production-Flags : (c : Config) → c.app_env ≡ "production" → check_production c ≡ [] → Flags c
unfolding check_production
check_production-Flags c is_production h =
    let there : (c.app_env == "production") ≡ true =
      (eq_iff c.app_env "production").1 is_production in
    let h0 = passed (c.app_env == "production") _ there h in
    let (secret, h1) = warned (c.secret_key == insecure_secret) _ _ h0 in
    let (quiet, h2) = warned c.debug _ _ h1 in
    let (secure, h3) = warned (not c.cookie_secure) _ _ h2 in
    let (stored, h4) = warned (has_prefix "sqlite://" c.database_url) _ _ h3 in
    let (shared, _) = warned (not (c.bus_backend == "redis")) _ _ h4 in
    record {
      secret = secret;
      quiet = quiet;
      secure = not-false c.cookie_secure secure;
      stored = stored;
      shared = not-false (c.bus_backend == "redis") shared;
    }
  where
    passed :
        (b : Bool) (rest : List String) → b ≡ true → (if not b then [] else rest) ≡ [] → rest ≡ []
    passed true rest e h = h
    passed false rest e h = absurd (cc)

module _ (lower : String → String) (int_of : String → Option ℤ) (default_database : String)
    (env : String → Option String) where
  -- A variable that is set, and to none of the words for true.
  abbrev pub IsOff : String → Type 0
  IsOff name =
      (raw : String) × ((env name ≡ some raw) × (elem (lower (strip raw)) true_words ≡ false))

  -- The five settings of a deployment that is safe, as the variables of its environment.
  pub record IsSafe : Type 0 where
    pub own_secret :
        (secret : String) × ((env "SECRET_KEY" ≡ some secret)
          × ((secret == insecure_secret) ≡ false))
    pub no_debug : IsOff "APP_DEBUG"
    pub secure_cookies : ¬ IsOff "COOKIE_SECURE"
    pub database :
        (url : String) × ((env "DATABASE_URL" ≡ some url) × (has_prefix "sqlite://" url ≡ false))
    pub bus : env "BEACN_BUS" ≡ some "redis"

  -- A deployment that says it is one of production gets no warning only if its environment sets a secret
  -- key of its own, sets APP_DEBUG and turns it off, does not turn COOKIE_SECURE off, names a database
  -- that is not SQLite, and chooses the bus of Redis. The default database is SQLite.
  pub check_production-IsSafe :
      env "APP_ENV" ≡ some "production"
      → has_prefix "sqlite://" default_database ≡ true
      → check_production (config lower int_of default_database env) ≡ []
      → IsSafe
  unfolding check_production config bool_at text_at
  check_production-IsSafe is_production sqlite silent =
      let flags =
        check_production-Flags (config lower int_of default_database env)
          (ap (λ o. or_default o "local") is_production) silent in
      record {
        own_secret = own (env "SECRET_KEY") refl flags.secret;
        no_debug = off (env "APP_DEBUG") refl flags.quiet;
        secure_cookies = λ off. cookies off flags.secure;
        database = named (env "DATABASE_URL") refl flags.stored;
        bus = chosen (env "BEACN_BUS") refl flags.shared;
      }
    where
      cookies :
          IsOff "COOKIE_SECURE"
          → bool_at lower int_of default_database env "COOKIE_SECURE"
              (text_at lower int_of default_database env "APP_ENV" "local" == "production")
            ≡ true
          → ⊥
      cookies (raw, (given, is_off)) secure =
          let on : elem (lower (strip raw)) true_words ≡ true =
            ap
              (λ o. elim o as (λ x. Bool) [
                | none ↦ or_default (env "APP_ENV") "local" == "production"
                | some r ↦ elem (lower (strip r)) true_words
              ])
              (sym given)
            ∙ secure in
          cc

      own :
          (o : Option String)
          → env "SECRET_KEY" ≡ o
          → (or_default o insecure_secret == insecure_secret) ≡ false
          → (secret : String) × ((env "SECRET_KEY" ≡ some secret)
              × ((secret == insecure_secret) ≡ false))
      own none e h = absurd (cc)
      own (some secret) e h = (secret, (e, h))

      off :
          (o : Option String)
          → env "APP_DEBUG" ≡ o
          → (elim o as (λ x. Bool) [ none ↦ true | some raw ↦ elem (lower (strip raw)) true_words ])
            ≡ false
          → IsOff "APP_DEBUG"
      off none e h = absurd (cc)
      off (some raw) e h = (raw, (e, h))

      named :
          (o : Option String)
          → env "DATABASE_URL" ≡ o
          → has_prefix "sqlite://" (or_default o default_database) ≡ false
          → (url : String) × ((env "DATABASE_URL" ≡ some url)
              × (has_prefix "sqlite://" url ≡ false))
      named none e h = absurd (cc)
      named (some url) e h = (url, (e, h))

      chosen :
          (o : Option String)
          → env "BEACN_BUS" ≡ o
          → (or_default o "memory" == "redis") ≡ true
          → env "BEACN_BUS" ≡ some "redis"
      chosen none e h = absurd (cc)
      chosen (some bus) e h = e ∙ ap some ((eq_iff bus "redis").0 h)
