-- ===== src/Configuration.antt =====
-- What the two programs read from their environment: mocko-core/src/config/config.service.ts over the
-- variables that it has merged, and mocko-control/lib/config/store-config.ts. `Number` is an argument: none
-- is NaN, and it answers finite numbers only.
pub mod Prefixes
use mocko.Base.{
  ℕ, Text, txt, Bool, Option, none, some, List, [], ◌∷◌, ◌++◌, is_empty, trim, ends_with, first,
  or_else, to_lower_case, ◌==◌, text_eq, if◌then◌else◌,
}
use mocko.Base.Result.{Result, ok, err, ◌>>=◌}
use mocko.Callbacks.Delivery.{strip_slashes}

abbrev pub Environment : Type 0
Environment = Text → Option Text

pub data ConfigError : Type 0 where
  missing : Text → ConfigError
  not_a_number : Text → ConfigError

-- `a || undefined`
abbrev pub filled : Option Text → Option Text
filled none = none
filled (some t) = if is_empty t then none else some t

-- `prefix.endsWith(':') ? prefix : `${prefix}:``, with the version
abbrev pub versioned : Text → Text
versioned prefix = (if ends_with prefix (txt ":") then prefix else prefix ++ txt ":") ++ txt "v2:"

pub record RedisOptions (N : Type 0) : Type 0 where
  pub port : N
  pub host : Text
  pub password : Option Text
  pub db : N
  pub key_prefix : Text

module _ {N : Type 0} (number : Text → Option N) (config : Environment) where
  abbrev pub require : Text → Option Text → Result ConfigError Text
  require key none = err (missing key)
  require key (some value) = ok value

  unfoldable pub get : Text → Result ConfigError Text
  get key = require key (config key)

  unfoldable pub get_optional_boolean : Text → Option Bool
  get_optional_boolean key = elim (config key) [
    | none ↦ none
    | some value ↦ some (to_lower_case value == txt "true")
  ]

  abbrev pub numbered : Text → Option N → Result ConfigError N
  numbered key none = err (not_a_number key)
  numbered key (some n) = ok n

  unfoldable pub get_number : Text → Result ConfigError N
  unfolding get
  get_number key = do value ← get key; numbered key (number value)

  unfoldable pub get_boolean : Text → Result ConfigError Bool
  unfolding get
  get_boolean key = do value ← get key; ok (to_lower_case value == txt "true")

  unfoldable pub get_redis_prefix : Text
  get_redis_prefix = versioned (or_else (filled (config (txt "REDIS_PREFIX"))) (txt "mocko:"))

  unfoldable pub get_redis_config : Result ConfigError (RedisOptions N)
  unfolding get_number get get_redis_prefix
  get_redis_config = do
    port ← get_number (txt "REDIS_PORT")
    host ← get (txt "REDIS_HOST")
    db ← get_number (txt "REDIS_DATABASE")
    ok (record {
      port = port;
      host = host;
      password = config (txt "REDIS_PASSWORD");
      db = db;
      key_prefix = get_redis_prefix;
    })

pub record StoreConfig (N : Type 0) : Type 0 where
  pub core_url : Text
  pub public_url : Text
  pub deploy_secret : Text
  pub redis_enabled : Bool
  pub redis_url : Option Text
  pub redis_options : RedisOptions N
  pub redis_prefix : Text
  pub flags_list_limit : N
  pub v1_migration_enabled : Bool

-- `value?.trim()`
abbrev pub trimmed : Option Text → Option Text
trimmed none = none
trimmed (some t) = some (trim t)

-- getRedisPrefix of the panel
unfoldable pub panel_redis_prefix : Option Text → Text
panel_redis_prefix value = versioned (or_else (filled (trimmed value)) (txt "mocko:"))

abbrev pub is_true : Option Text → Bool
is_true none = Bool.false
is_true (some t) = t == txt "true"

module _ {N : Type 0} (number : Text → Option N) (port_default database_default limit_default : N)
    (env : Environment) where
  unfoldable pub parse_number : Option Text → N → N
  parse_number value fallback = elim (filled value) [
    | none ↦ fallback
    | some text ↦ or_else (number text) fallback
  ]

  unfoldable pub get_store_config : StoreConfig N
  unfolding parse_number panel_redis_prefix
  get_store_config = record {
    core_url = strip_slashes (or_else (env (txt "MOCKO_CORE_URL")) []);
    public_url = strip_slashes (or_else (env (txt "MOCKO_PUBLIC_URL")) []);
    deploy_secret = or_else (env (txt "MOCKO_DEPLOY_SECRET")) [];
    redis_enabled = is_true (env (txt "REDIS_ENABLED"));
    redis_url = filled (env (txt "REDIS_URL"));
    redis_options = record {
      port = parse_number (env (txt "REDIS_PORT")) port_default;
      host = or_else (filled (env (txt "REDIS_HOST"))) (txt "127.0.0.1");
      password = filled (env (txt "REDIS_PASSWORD"));
      db = parse_number (env (txt "REDIS_DATABASE")) database_default;
      key_prefix = panel_redis_prefix (env (txt "REDIS_PREFIX"));
    };
    redis_prefix = panel_redis_prefix (env (txt "REDIS_PREFIX"));
    flags_list_limit =
        parse_number (first (env (txt "FLAGS_LIST_LIMIT")) (env (txt "FLAGS_LIST-LIMIT")))
          limit_default;
    v1_migration_enabled = is_true (env (txt "MOCKO_V1_MIGRATION_ENABLED"));
  }
