-- ===== src/Proxy/Samples.antt =====
-- A world for the tests of the proxy: a number that a refresh sets to 1; the token is "old" before and
-- "new" afterwards; the upstream refuses the old one.
use grok_auth_proxy.Prelude.{
  ℕ, zero, suc, ◌+◌, true, false, none, some, List, [], ◌∷◌, ◌++◌, ok, eqb, if◌then◌else◌,
}
use grok_auth_proxy.Text.{Str, codes}
use grok_auth_proxy.Net.{Url}
use grok_auth_proxy.Http.{Headers}
use grok_auth_proxy.Proxy.Stream.{Round, eof}
use grok_auth_proxy.Proxy.Context.{ClientRequest, UpstreamResponse, World, Upstream, Ctx}

abbrev pub header : Headers
header =
    (codes "Authorization", codes "Bearer sk-gap-1" ∷ [])
    ∷ (codes "Accept", codes "a" ∷ codes "b" ∷ [])
    ∷ (codes "Cookie", codes "c" ∷ [])
    ∷ []

abbrev pub client : ClientRequest
client = record {
  method = codes "POST";
  url = record { scheme = []; host = []; path = codes "/v1/models"; raw_query = codes "a=b" };
  header = header;
  client_ip = codes "10.0.0.1";
  user_agent = codes "curl";
  request_id = codes "r";
  api_key = some (codes "01", codes "first", codes "sk-gap-01");
}

abbrev pub base : Url
base = record {
  scheme = codes "https";
  host = codes "api.x.ai";
  path = codes "/v1/";
  raw_query = [];
}

abbrev pub upstream : Upstream
upstream = record { base = base; audit_enabled = true; max_body = 3; max_request = 8 }

abbrev pub rounds : List Round
rounds =
    record { bytes = codes "ab"; taken = true; ended = none }
    ∷ record { bytes = codes "cd"; taken = true; ended = some eof }
    ∷ []

abbrev pub refused : UpstreamResponse
refused = record {
  status_code = 401;
  header = [];
  rounds = record { bytes = []; taken = true; ended = some eof } ∷ [];
}

abbrev pub good : UpstreamResponse
good = record {
  status_code = 200;
  header = (codes "Set-Cookie", codes "s" ∷ []) ∷ (codes "X-Id", codes "7" ∷ []) ∷ [];
  rounds = rounds;
}

abbrev pub token_at : ℕ → Str
token_at zero = codes "old"
token_at (suc n) = codes "new"

abbrev pub sample_world : World ℕ
sample_world = record {
  get_access_token = λ s. (ok (token_at s), s);
  force_refresh = λ s. (none, 1);
  do_request = λ req s. (ok (if eqb s 0 then refused else good), s);
  now = λ s. s + 5;
  request_error = λ method url. none;
  url_string = λ u. u.scheme ++ codes "://" ++ u.host ++ u.path;
  json_model = λ body. some (codes "grok");
  json_stream = λ body. none;
}

abbrev pub ctx_at : ℕ → Ctx ℕ
ctx_at s = record {
  world = s;
  writer = record { header = []; status = 200; written = false; body = [] };
  requests = [];
  audit = [];
}
