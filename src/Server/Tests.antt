-- ===== src/Server/Tests.antt =====
-- A request through the whole chain.
use grok_auth_proxy.Server.Samples.{key, body}
use grok_auth_proxy.Prelude.{ℕ, false, none, List, [], ◌∷◌, ok, err}
use grok_auth_proxy.Prelude.Int.{pos}
use grok_auth_proxy.Float.{finite}
use grok_auth_proxy.Text.{codes}
use grok_auth_proxy.Store.Table.{ApiKey}
use grok_auth_proxy.Middleware.RateLimit.{new_rate_limiter}
use grok_auth_proxy.Proxy.Samples.{ctx_at}
use grok_auth_proxy.Server.{Service}
use grok_auth_proxy.Auth.Samples.{start, late, env_at, manager_of, sample_json}
use grok_auth_proxy.Auth.Refresh.{no_request}
use grok_auth_proxy.Auth.Token.{TokenEnv, get_access_token}
use grok_auth_proxy.Proxy.Context.{World, Ctx}
use grok_auth_proxy.Proxy.Samples.{good}
use grok_auth_proxy.Server.Tokens.{Held, with_manager}

abbrev service : Service ℕ (List ApiKey) ℕ
service = record {
  limiter = new_rate_limiter (finite (pos 1) (pos 0)) (pos 1);
  keys = record { db = key ∷ []; cache = []; pending = [] };
  ctx = ctx_at 0;
}

abbrev token_env : TokenEnv
token_env = record { now_check = start; refresh = env_at start no_request; now_fallback = start }

abbrev held : Held
held = record { manager = manager_of late; calls = 0; events = [] }

abbrev plain_world : World Held
plain_world = record {
  get_access_token = λ h. (err [], h);
  force_refresh = λ h. (none, h);
  do_request = λ req h. (ok good, h);
  now = λ h. start;
  request_error = λ method url. none;
  url_string = λ u. u.path;
  json_model = λ body. none;
  json_stream = λ body. none;
}

abbrev managed : World Held
managed = with_manager sample_json (λ n. token_env) (λ e. codes "failed") plain_world

abbrev held_ctx : Ctx Held
held_ctx = record {
  world = held;
  writer = record { header = []; status = 200; written = false; body = [] };
  requests = [];
  audit = [];
}
