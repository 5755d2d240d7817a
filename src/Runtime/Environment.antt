-- ===== src/Runtime/Environment.antt =====
-- shared/config/config.go, and the functions of the services that read the environment. A variable that
-- is not set reads as the empty text.
use nodefall.Base.{String, ◌==◌, Option, none, some, if◌then◌else◌}

pub record Config : Type 0 where
  pub jwt_secret : String
  pub redis_url : String
  pub db_url : String
  pub port : String

module _ (getenv : String → String) where
  unfoldable pub load : Config
  load = record {
    jwt_secret = getenv "NODEFALL_JWT_SECRET";
    redis_url = getenv "NODEFALL_REDIS_URL";
    db_url = getenv "NODEFALL_DB_URL";
    port = getenv "NODEFALL_PORT";
  }

  -- None is the end of the process.
  unfoldable pub require_env : String → Option String
  require_env key = if getenv key == "" then none else some (getenv key)
