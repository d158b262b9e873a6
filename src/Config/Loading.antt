-- ===== src/Config/Loading.antt =====
-- internal/config/config.go: the defaults, the flags and the environment variables, and Load.
-- viper and pflag are parameters: what they make of the defaults, the flags, the variables and a
-- configuration file.
pub mod Defaults
use grok_auth_proxy.Prelude.{
  ◌*◌, true, Option, none, some, List, [], ◌∷◌, Result, ok, err, is_empty, if◌then◌else◌,
}
use grok_auth_proxy.Prelude.Int.{pos}
use grok_auth_proxy.Float.{finite}
use grok_auth_proxy.Text.{Str, codes}
use grok_auth_proxy.Clock.{second}
use grok_auth_proxy.Net.{NetLib}
use grok_auth_proxy.Config.{Config, ConfigError, default_max_request_bytes, validate}

-- setDefaults; a setting without a default has the zero value of its type.
abbrev pub default_config : Config
default_config = record {
  server = record {
    addr = codes ":8080";
    admin_key = [];
    shutdown_timeout = pos (15 * second);
    read_timeout = pos (60 * second);
    idle_timeout = pos (120 * second);
    max_request_bytes = default_max_request_bytes;
  };
  auth = record {
    file = codes "./auth.json";
    upstream_base = codes "https://api.x.ai/v1";
    refresh_skew = pos (5 * 60 * second);
    issuer = [];
    client_id = [];
    account = [];
  };
  db = record { driver = codes "sqlite"; dsn = codes "./data/proxy.db" };
  rate_limit = record { rps = finite (pos 10) (pos 0); burst = pos 20 };
  cors = record { allowed_origins = codes "*" ∷ [] };
  log = record { level = codes "info"; redact = true };
  metrics = record { enabled = true; path = codes "/metrics" };
  audit = record { enabled = true; max_body_bytes = pos 65536 };
}

-- bindFlags: the names of the flags, each of them with an empty default
abbrev pub bind_flags : List Str
bind_flags =
    codes "config"
    ∷ codes "server.addr"
    ∷ codes "server.admin_key"
    ∷ codes "auth.file"
    ∷ codes "auth.upstream_base"
    ∷ codes "db.driver"
    ∷ codes "db.dsn"
    ∷ codes "log.level"
    ∷ []

-- bindEnv: the explicit bindings of a setting to a variable
abbrev pub bind_env : List (Str × Str)
bind_env =
    (codes "server.addr", codes "GAP_SERVER_ADDR")
    ∷ (codes "server.admin_key", codes "GAP_SERVER_ADMIN_KEY")
    ∷ (codes "server.shutdown_timeout", codes "GAP_SERVER_SHUTDOWN_TIMEOUT")
    ∷ (codes "server.read_timeout", codes "GAP_SERVER_READ_TIMEOUT")
    ∷ (codes "server.idle_timeout", codes "GAP_SERVER_IDLE_TIMEOUT")
    ∷ (codes "server.max_request_bytes", codes "GAP_SERVER_MAX_REQUEST_BYTES")
    ∷ (codes "auth.file", codes "GAP_AUTH_FILE")
    ∷ (codes "auth.upstream_base", codes "GAP_AUTH_UPSTREAM_BASE")
    ∷ (codes "auth.refresh_skew", codes "GAP_AUTH_REFRESH_SKEW")
    ∷ (codes "auth.issuer", codes "GAP_AUTH_ISSUER")
    ∷ (codes "auth.client_id", codes "GAP_AUTH_CLIENT_ID")
    ∷ (codes "auth.account", codes "GAP_AUTH_ACCOUNT")
    ∷ (codes "db.driver", codes "GAP_DB_DRIVER")
    ∷ (codes "db.dsn", codes "GAP_DB_DSN")
    ∷ (codes "rate_limit.rps", codes "GAP_RATE_LIMIT_RPS")
    ∷ (codes "rate_limit.burst", codes "GAP_RATE_LIMIT_BURST")
    ∷ (codes "log.level", codes "GAP_LOG_LEVEL")
    ∷ (codes "log.redact", codes "GAP_LOG_REDACT")
    ∷ (codes "metrics.enabled", codes "GAP_METRICS_ENABLED")
    ∷ (codes "metrics.path", codes "GAP_METRICS_PATH")
    ∷ (codes "audit.enabled", codes "GAP_AUDIT_ENABLED")
    ∷ (codes "audit.max_body_bytes", codes "GAP_AUDIT_MAX_BODY_BYTES")
    ∷ (codes "config", codes "GAP_CONFIG")
    ∷ []

-- viper, on the settings that it has gathered.
pub record ViperLib : Type 1 where
  pub Settings : Type 0
  -- viper.New with the defaults, the flags and the bindings, and a prefix for all other variables
  pub gather : Config → List Str → (prefix : Str) → List (Str × Str) → Settings
  -- v.GetString("config")
  pub config_file : Settings → Str
  -- v.SetConfigFile and v.ReadInConfig, `none` for an error
  pub read_config : Str → Settings → Option Settings
  -- v.Unmarshal, `none` for an error
  pub unmarshal : Settings → Option Config

pub data LoadError : Type 0 where
  config_unreadable config_malformed : LoadError
  invalid : ConfigError → LoadError

abbrev pub validated : Result ConfigError Config → Result LoadError Config
validated (err e) = err (invalid e)
validated (ok c) = ok c

-- From v.Unmarshal on.
abbrev pub unmarshalled : NetLib → Option Config → Result LoadError Config
unmarshalled net none = err config_malformed
unmarshalled net (some c) = validated (validate net c)

abbrev pub after_read :
    (viper : ViperLib) → NetLib → Option viper.Settings → Result LoadError Config
after_read viper net none = err config_unreadable
after_read viper net (some s) = unmarshalled net (viper.unmarshal s)

-- What viper has gathered when the configuration file is looked for.
unfoldable pub settings : (viper : ViperLib) → viper.Settings
settings viper = viper.gather default_config bind_flags (codes "GAP") bind_env

-- Load
unfoldable pub load : ViperLib → NetLib → Result LoadError Config
load viper net =
    let s = settings viper in
    let file = viper.config_file s in
    if is_empty file
    then after_read viper net (some s)
    else after_read viper net (viper.read_config file s)
