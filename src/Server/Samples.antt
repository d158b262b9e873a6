-- ===== src/Server/Samples.antt =====
-- Concrete settings, a key and a request for the tests of the server.
use grok_auth_proxy.Prelude.{ℕ, true, false, none, some, [], Option}
use grok_auth_proxy.Prelude.Int.{pos}
use grok_auth_proxy.Text.{codes}
use grok_auth_proxy.Auth.Samples.{start, sample_json}
use grok_auth_proxy.Middleware.RateLimit.{RateLib}
use grok_auth_proxy.Store.Table.{ApiKey}
use grok_auth_proxy.Proxy.Body.{Body}
use grok_auth_proxy.Server.{Arrival}
use grok_auth_proxy.Server.Console.{AdminEnv}

abbrev pub env : AdminEnv
env = record {
  sha256 = λ s. s;
  admin_key = codes "secret";
  origins = [];
  json = sample_json;
  parse_time = λ s. none;
}

abbrev pub key : ApiKey
key = record {
  id = codes "01";
  name = codes "first";
  key_hash = codes "sk-gap-1";
  key_lookup = codes "sk-gap-1";
  key_prefix = codes "sk-gap-1";
  rate_limit_rps = none;
  enabled = true;
  created_at = start;
  last_used_at = none;
  revoked_at = none;
}

abbrev pub open_rate : RateLib ℕ
open_rate = record {
  new_limiter = λ rps burst. 1;
  allow = λ now left. (true, left);
  twice_to_int = λ rps. pos 2;
}

abbrev pub arrival : Arrival
arrival = record { now = start; now_get = start; now_limit = start; new_id = codes "r" }

abbrev pub body : Option Body
body = some (record { bytes = codes "hello"; fails = false })
