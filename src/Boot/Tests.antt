-- ===== src/Boot/Tests.antt =====
-- Starts on a database that keeps one row, and the configured that they need.
use grok_auth_proxy.Prelude.{◌≡◌, ◌++◌, refl, true, false, Option, none, some, [], ok}
use grok_auth_proxy.Text.{Str, codes, strings}
use grok_auth_proxy.Net.Samples.{sample_net, parse}
use grok_auth_proxy.Auth.Manager.{
  publish_metrics, adopt, load_map, load_bytes, reload, fresh, materialise, finish, new_manager,
  Manager,
}
use grok_auth_proxy.Auth.Select.{better, find_account, best_from, select_entry}
use grok_auth_proxy.Auth.Samples.{start, accounts, late, sample_json}
use grok_auth_proxy.Config.{
  Config, is_loopback_host, check_scheme, require_secure_url, settle, validate, positive_or,
}
use grok_auth_proxy.Config.Loading.Defaults.{with_admin_key}
use grok_auth_proxy.Store.State.{
  AuthState, auth_state_default_id, StateTable, save_auth_state, load_auth_state,
}
use grok_auth_proxy.Boot.{Booted, log_level, debug, info, persist_state, seed, boot_auth}
use grok_auth_proxy.Boot.Restart.{Holds, persisted_restored}

booting : Unit {0}
unfolding strings parse publish_metrics adopt load_map load_bytes reload fresh materialise finish
    new_manager better find_account best_from select_entry sample_json is_loopback_host check_scheme
    require_secure_url settle validate positive_or save_auth_state load_auth_state log_level
    persist_state seed boot_auth
booting = tt

levels : (log_level (codes "DEBUG") ≡ debug) × (log_level (codes "verbose") ≡ info)
unfolding booting
levels = (refl, refl)

abbrev configured : Config
configured = with_admin_key (codes "k")

valid : validate sample_net configured ≡ ok configured
unfolding booting
valid = refl

abbrev row_table : StateTable
row_table = record {
  Db = Option AuthState;
  state = λ db. db;
  save = λ r db. ok (some r);
  first = λ id db. ok db;
  save_state = λ r db db' same h. cc;
  first_state = λ db o h. cc;
}

abbrev saved : Str → AuthState
saved payload = record { id = auth_state_default_id; payload = payload; updated_at = start }

-- The manager that a start makes, from the letter that stands for a document.
abbrev made : Manager
made = record {
  path = codes "./auth.json";
  issuer = codes "https://auth.x.ai";
  client_id = [];
  account = [];
  refresh_skew = configured.auth.refresh_skew;
  has_persist = true;
  has_metrics = true;
  file_writable = false;
  map_key = codes "ab";
  entry = late;
  file_data = some accounts;
  token_endpoint = [];
  writing = false;
}

abbrev booted : Booted row_table
booted = record {
  manager = made;
  db = some (saved (codes "M"));
  events = publish_metrics made ++ publish_metrics made;
}

-- The file holds other credentials by the time of the start.
boots :
    boot_auth row_table sample_json configured false
      (some (codes "S"))
      (some (codes "S"))
      start
      (some (saved (codes "M")))
    ≡ ok booted
unfolding booting
boots = refl

persisted_restored_example :
    Holds sample_json (codes "M") [] made × (booted.db ≡ some (saved (codes "M")))
unfolding booting
persisted_restored_example =
    persisted_restored row_table sample_json configured false (some (codes "S")) (some (codes "S"))
      start start (codes "M") none (some (saved (codes "M"))) (some (saved (codes "M"))) booted refl
      refl boots
