-- ===== src/Settings/Tests.antt =====
-- A production deployment that is set up, and one that is not.
use beacn.Base.{◌≡◌, refl, String, [], ◌∷◌, Option, none, some, ◌==◌, if◌then◌else◌}
use beacn.Base.Int.{ℤ}
use beacn.Base.Strip.{strip}
use beacn.Settings.{config, check_production, bool_at, int_at, text_at}

abbrev same : String → String
same s = s

abbrev no_int : String → Option ℤ
no_int s = none

abbrev deployed : String → Option String
deployed name =
    if name == "APP_ENV"
    then some "production"
    else if name == "SECRET_KEY"
    then some "s3cret"
    else if name == "APP_DEBUG"
    then some " no "
    else if name == "DATABASE_URL"
    then some "postgres://db/beacn"
    else if name == "BEACN_BUS"
    then some "redis"
    else none

abbrev unset : String → Option String
unset name = if name == "APP_ENV" then some "production" else none

silent : check_production (config same no_int "sqlite://beacn.db" deployed) ≡ []
unfolding check_production config bool_at int_at text_at strip
silent = refl

warnings :
    check_production (config same no_int "sqlite://beacn.db" unset)
    ≡ "SECRET_KEY is the development default." ∷ "APP_DEBUG is on."
      ∷ "DATABASE_URL is SQLite; use Postgres in production."
      ∷ "BEACN_BUS is not 'redis'; multi-instance fanout will not work across processes." ∷ []
unfolding check_production config bool_at int_at text_at strip
warnings = refl
