-- ===== src/Auth/Samples.antt =====
-- Concrete credentials, decoders and answers for the tests. A text of one letter stands for each JSON
-- document that occurs.
use grok_auth_proxy.Prelude.{◌+◌, ◌*◌, true, false, Option, none, some, [], ◌∷◌, if◌then◌else◌}
use grok_auth_proxy.Prelude.Int.{ℤ, pos}
use grok_auth_proxy.Text.{Str, codes, ◌==◌}
use grok_auth_proxy.Clock.{Time, second}
use grok_auth_proxy.Auth.Entry.{Entry, FileData}
use grok_auth_proxy.Auth.Manager.{JsonLib, TokenResponse, Manager, Options}
use grok_auth_proxy.Auth.Refresh.{HttpAnswer, answered, RefreshEnv}

abbrev pub start : Time
start = 64_000_000_000 * second

abbrev pub entry_until : Str → Time → Entry
entry_until key expires = record {
  key = key;
  auth_mode = codes "oidc";
  refresh_token = codes "r1";
  expires_at = expires;
  client_id = [];
  oidc_client_id = codes "cli";
  issuer = [];
  oidc_issuer = codes "https://auth.x.ai/";
}

abbrev pub early : Entry
early = entry_until (codes "k1") (start + 60 * second)

abbrev pub late : Entry
late = entry_until (codes "k2") (start + 7200 * second)

abbrev pub unusable : Entry
unusable = entry_until (codes "  ") (start + 9000 * second)

abbrev pub accounts : FileData
accounts = (codes "a", early) ∷ (codes "ab", late) ∷ (codes "c", unusable) ∷ []

abbrev pub accounts' : FileData
accounts' = (codes "c", unusable) ∷ (codes "ab", late) ∷ (codes "a", early) ∷ []

abbrev pub single : FileData
single = (codes "a", early) ∷ []

abbrev pub token_for : ℤ → Str → TokenResponse
token_for life access = record {
  access_token = access;
  refresh_token = codes "r2";
  expires_in = life;
}

decode_file : Str → Option FileData
decode_file raw =
    if raw == codes "M" then some accounts else if raw == codes "S" then some single else none

decode_token : Str → Option TokenResponse
decode_token raw =
    if raw == codes "T"
    then some (token_for (pos 3600) (codes "k9"))
    else if raw == codes "W"
    then some (token_for (pos 3600) (codes " "))
    else none

unfoldable pub sample_json : JsonLib
unfolding decode_file decode_token
sample_json = record {
  file_data = decode_file;
  token_response = decode_token;
  token_endpoint = λ raw. if raw == codes "D" then some (codes "https://auth.x.ai/t") else none;
}

abbrev pub env_at : Time → HttpAnswer → RefreshEnv
env_at now token = record {
  now_check = now;
  now_issue = now;
  discovery = answered 200 (codes "D");
  token = token;
  write_ok = true;
}

abbrev pub manager_of : Entry → Manager
manager_of e = record {
  path = codes "auth.json";
  issuer = codes "https://auth.x.ai";
  client_id = [];
  account = [];
  refresh_skew = pos (300 * second);
  has_persist = true;
  has_metrics = true;
  file_writable = true;
  map_key = codes "a";
  entry = e;
  file_data = some ((codes "a", e) ∷ []);
  token_endpoint = [];
  writing = false;
}

abbrev pub sample_options : Options
sample_options = record {
  path = codes "auth.json";
  issuer = [];
  client_id = [];
  account = [];
  refresh_skew = pos 0;
  has_persist = true;
  has_metrics = false;
  initial_data = codes "M";
}
