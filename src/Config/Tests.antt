-- ===== src/Config/Tests.antt =====
-- Validation on concrete settings, as in internal/config/config_test.go.
use grok_auth_proxy.Prelude.{◌*◌, ◌≡◌, refl, ◌↔◌, true, [], ◌∷◌, ok, err}
use grok_auth_proxy.Prelude.Int.{pos}
use grok_auth_proxy.Float.{finite}
use grok_auth_proxy.Text.{Str, codes, strings}
use grok_auth_proxy.Clock.{second}
use grok_auth_proxy.Net.Samples.{sample_net, parse}
use grok_auth_proxy.Config.{
  Config, upstream_base, cleartext, is_loopback_host, check_scheme, require_secure_url, settle,
  validate, positive_or,
}
use grok_auth_proxy.Config.Validation.{Accepts, validate-eq-ok_iff}

abbrev with_base : Str → Config
with_base base = record {
  server = record {
    addr = codes ":8080";
    admin_key = codes "k";
    shutdown_timeout = pos 0;
    read_timeout = pos (5 * second);
    idle_timeout = pos 0;
    max_request_bytes = pos 0;
  };
  auth = record {
    file = codes "./auth.json";
    upstream_base = base;
    refresh_skew = pos (60 * second);
    issuer = [];
    client_id = [];
    account = [];
  };
  db = record { driver = codes "SQLite"; dsn = codes "x" };
  rate_limit = record { rps = finite (pos 1) (pos 0); burst = pos 1 };
  cors = record { allowed_origins = codes "*" ∷ [] };
  log = record { level = codes "info"; redact = true };
  metrics = record { enabled = true; path = codes "/metrics" };
  audit = record { enabled = true; max_body_bytes = pos 0 };
}

abbrev sample : Config
sample = with_base (codes "https://api.x.ai/v1/")

config : Unit {0}
unfolding strings validate require_secure_url check_scheme is_loopback_host settle positive_or parse
config = tt

sample_accepted : validate sample_net sample ≡ ok (settle sample)
unfolding config
sample_accepted = refl

rejected :
    (validate sample_net (with_base (codes "http://api.x.ai/v1")) ≡ err (cleartext upstream_base))
    × (validate sample_net (with_base (codes "http://LocalHost/v1"))
        ≡ ok (settle (with_base (codes "http://LocalHost/v1"))))
unfolding config
rejected = (refl, refl)

validate-eq-ok_iff_example :
    (validate sample_net sample ≡ ok (settle sample)) ↔ Accepts sample_net sample
validate-eq-ok_iff_example = validate-eq-ok_iff sample_net sample
