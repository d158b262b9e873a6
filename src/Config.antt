-- ===== src/Config.antt =====
-- internal/config/config.go: the settings and their validation.
-- `Validate` changes its receiver in place and `Load` drops it on an error, so here it returns the
-- settled configuration or the error. Errors keep which check failed and not their text.
pub mod Security
pub mod Validation
pub mod Loading
mod Tests
use grok_auth_proxy.Prelude.{
  ◌*◌, ◌^◌, Bool, true, false, not, ◌||◌, none, some, List, Result, ok, err, ◌>>=◌, ◌>>◌, guard,
  if◌then◌else◌,
}
use grok_auth_proxy.Prelude.Int.{ℤ, pos, is_positive}
use grok_auth_proxy.Float.{Float64, le_zero}
use grok_auth_proxy.Text.{Str, codes, ◌==◌, is_blank, to_lower, equal_fold, trim_slashes}
use grok_auth_proxy.Clock.{second}
use grok_auth_proxy.Net.{Url, NetLib}

abbrev pub default_read_timeout : ℤ
default_read_timeout = pos (60 * second)

abbrev pub default_idle_timeout : ℤ
default_idle_timeout = pos (120 * second)

abbrev pub default_max_request_bytes : ℤ
default_max_request_bytes = pos (10 * 2 ^ 20)

pub record AuditConfig : Type 0 where
  pub enabled : Bool
  pub max_body_bytes : ℤ

pub record ServerConfig : Type 0 where
  pub addr : Str
  pub admin_key : Str
  pub shutdown_timeout : ℤ
  pub read_timeout : ℤ
  pub idle_timeout : ℤ
  pub max_request_bytes : ℤ

pub record AuthConfig : Type 0 where
  pub file : Str
  pub upstream_base : Str
  pub refresh_skew : ℤ
  pub issuer : Str
  pub client_id : Str
  pub account : Str

pub record DbConfig : Type 0 where
  pub driver : Str
  pub dsn : Str

pub record RateLimitConfig : Type 0 where
  pub rps : Float64
  pub burst : ℤ

pub record CorsConfig : Type 0 where
  pub allowed_origins : List Str

pub record LogConfig : Type 0 where
  pub level : Str
  pub redact : Bool

pub record MetricsConfig : Type 0 where
  pub enabled : Bool
  pub path : Str

pub record Config : Type 0 where
  pub server : ServerConfig
  pub auth : AuthConfig
  pub db : DbConfig
  pub rate_limit : RateLimitConfig
  pub cors : CorsConfig
  pub log : LogConfig
  pub metrics : MetricsConfig
  pub audit : AuditConfig

-- The setting that a URL check names.
pub data Field : Type 0 where
  upstream_base issuer : Field

pub data ConfigError : Type 0 where
  admin_key_required file_required upstream_required : ConfigError
  invalid_url cleartext not_absolute bad_scheme : Field → ConfigError
  bad_driver rps_not_positive burst_not_positive : ConfigError

module _ (net : NetLib) where
  unfoldable pub is_loopback_host : Str → Bool
  is_loopback_host host =
      if host == codes ""
      then false
      else if equal_fold host (codes "localhost")
      then true
      else net.is_loopback_ip host

  -- The switch of requireSecureURL.
  unfoldable pub check_scheme : Field → Url → Result ConfigError (Unit {0})
  check_scheme field u =
      let scheme = to_lower u.scheme in
      if scheme == codes "https"
      then ok tt
      else if scheme == codes "http"
      then (if is_loopback_host (net.hostname u) then ok tt else err (cleartext field))
      else if scheme == codes ""
      then err (not_absolute field)
      else err (bad_scheme field)

  -- requireSecureURL
  unfoldable pub require_secure_url : Field → Str → Result ConfigError (Unit {0})
  require_secure_url field raw = elim (net.parse raw) [
    | none ↦ err (invalid_url field)
    | some u ↦ check_scheme field u
  ]

-- `if x <= 0 { x = d }`
unfoldable pub positive_or : ℤ → ℤ → ℤ
positive_or d x = if is_positive x then x else d

-- What `Validate` writes back once its checks have passed.
unfoldable pub settle : Config → Config
settle c = record c {
  server = record c.server {
    shutdown_timeout = positive_or (pos (15 * second)) c.server.shutdown_timeout;
    read_timeout = positive_or default_read_timeout c.server.read_timeout;
    idle_timeout = positive_or default_idle_timeout c.server.idle_timeout;
    max_request_bytes = positive_or default_max_request_bytes c.server.max_request_bytes;
  };
  auth = record c.auth {
    upstream_base = trim_slashes c.auth.upstream_base;
    refresh_skew = positive_or (pos (300 * second)) c.auth.refresh_skew;
  };
  db = record c.db { driver = to_lower c.db.driver };
  audit = record c.audit { max_body_bytes = positive_or (pos 65536) c.audit.max_body_bytes };
}

-- Validate
unfoldable pub validate : NetLib → Config → Result ConfigError Config
validate net c = do
  guard (not (is_blank c.server.admin_key)) admin_key_required
  guard (not (is_blank c.auth.file)) file_required
  guard (not (is_blank c.auth.upstream_base)) upstream_required
  require_secure_url net upstream_base c.auth.upstream_base
  if is_blank c.auth.issuer then ok tt else require_secure_url net issuer c.auth.issuer
  let driver = to_lower c.db.driver
  guard (driver == codes "sqlite" || driver == codes "postgres") bad_driver
  guard (not (le_zero c.rate_limit.rps)) rps_not_positive
  guard (is_positive c.rate_limit.burst) burst_not_positive
  ok (settle c)
