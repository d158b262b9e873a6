-- ===== src/Auth/Manager.antt =====
-- internal/auth/auth.go: the state of the Manager, and how it is loaded.
-- An operation returns its result, the manager it leaves, and its events: what it asked of the HTTP
-- client, the store, the file system and the metrics, the earliest first. Logging is left out.
pub mod Loading
use grok_auth_proxy.Prelude.{
  ℕ, ◌*◌, Bool, false, not, Option, none, some, List, [], ◌∷◌, ◌++◌, Result, ok, err, is_empty,
  if◌then◌else◌,
}
use grok_auth_proxy.Prelude.Int.{ℤ, pos, is_positive}
use grok_auth_proxy.Text.{Str, codes, ◌==◌, is_blank, trim_slashes}
use grok_auth_proxy.Clock.{Time, second, zero_time}
use grok_auth_proxy.Auth.Entry.{Entry, FileData}
use grok_auth_proxy.Auth.Select.{SelectError, select_entry}

pub data AuthError : Type 0 where
  path_required read_failed parse_failed no_entries empty_key : AuthError
  not_selected : SelectError → AuthError
  no_access_token no_refresh_token bad_request request_failed : AuthError
  bad_status : ℕ → Str → AuthError
  bad_token_response missing_access_token : AuthError
  expired_and_failed : AuthError → AuthError

pub data Event : Type 0 where
  set_auth_state : (ready : Bool) (expires_at : Time) (has_refresh : Bool) → Event
  inc_auth_refresh : (success : Bool) → Event
  http_get : Str → Event
  http_post : Str → List (Str × Str) → Event
  persist : FileData → Event
  write_file : FileData → Event

-- The body of a token response.
pub record TokenResponse : Type 0 where
  pub access_token : Str
  pub refresh_token : Str
  pub expires_in : ℤ

-- encoding/json: what json.Unmarshal finds in the bytes, `none` for an error.
pub record JsonLib : Type 0 where
  pub file_data : Str → Option FileData
  pub token_response : Str → Option TokenResponse
  -- The field token_endpoint of a discovery document.
  pub token_endpoint : Str → Option Str

-- The fields that no method changes come first; `none` is a nil map.
pub record Manager : Type 0 where
  pub path : Str
  pub issuer : Str
  pub client_id : Str
  pub account : Str
  pub refresh_skew : ℤ
  pub has_persist : Bool
  pub has_metrics : Bool
  pub file_writable : Bool
  pub map_key : Str
  pub entry : Entry
  pub file_data : Option FileData
  pub token_endpoint : Str
  pub writing : Bool

abbrev pub Act : Type 0 → Type 0
Act A = Manager → Result AuthError A × Manager × List Event

-- publishMetrics
unfoldable pub publish_metrics : Manager → List Event
publish_metrics m =
    if m.has_metrics
    then set_auth_state (not (is_blank m.entry.key)) m.entry.expires_at
        (not (is_blank m.entry.refresh_token))
      ∷ []
    else []

-- Ready
unfoldable pub ready : Manager → Bool
ready m = not (is_blank m.entry.key)

-- ExpiresAt
unfoldable pub expires_at : Manager → Time
expires_at m = m.entry.expires_at

-- The end of loadBytes, once the entry is selected.
unfoldable pub adopt : FileData → Str → Entry → Act (Unit {0})
adopt fd k e m =
    if is_blank e.key
    then (err empty_key, m, [])
    else (let m' = record m { file_data = some fd; map_key = k; entry = e; token_endpoint = [] } in
        (ok tt, m', publish_metrics m'))

-- What loadBytes does with the map, once the bytes are parsed.
unfoldable pub load_map : FileData → Act (Unit {0})
load_map fd m = if is_empty fd then (err no_entries, m, []) else elim (select_entry fd m.account) [
  | err e ↦ (err (not_selected e), m, [])
  | ok (k, e) ↦ adopt fd k e m
]

-- loadBytes
unfoldable pub load_bytes : JsonLib → Str → Act (Unit {0})
load_bytes json raw m = elim (json.file_data raw) [
  | none ↦ (err parse_failed, m, [])
  | some fd ↦ load_map fd m
]

-- Reload; the bytes are what os.ReadFile returns, `none` for an error.
unfoldable pub reload : JsonLib → Option Str → Act (Unit {0})
reload json none m = (err read_failed, m, [])
reload json (some raw) m = load_bytes json raw m

pub record Options : Type 0 where
  pub path : Str
  pub issuer : Str
  pub client_id : Str
  pub account : Str
  pub refresh_skew : ℤ
  pub has_persist : Bool
  pub has_metrics : Bool
  pub initial_data : Str

abbrev pub zero_entry : Entry
zero_entry = record {
  key = [];
  auth_mode = [];
  refresh_token = [];
  expires_at = zero_time;
  client_id = [];
  oidc_client_id = [];
  issuer = [];
  oidc_issuer = [];
}

abbrev pub default_issuer : Str
default_issuer = codes "https://auth.x.ai"

-- The manager that NewManager builds before it loads the credentials.
unfoldable pub fresh : Options → Bool → Manager
fresh opts writable = record {
  path = opts.path;
  issuer = trim_slashes (if opts.issuer == [] then default_issuer else opts.issuer);
  client_id = opts.client_id;
  account = opts.account;
  refresh_skew = if is_positive opts.refresh_skew then opts.refresh_skew else pos (300 * second);
  has_persist = opts.has_persist;
  has_metrics = opts.has_metrics;
  file_writable = writable;
  map_key = [];
  entry = zero_entry;
  file_data = none;
  token_endpoint = [];
  writing = false;
}

-- The file write of NewManager; a failure is only logged.
unfoldable pub materialise : Manager → List Event
materialise m = elim m.file_data [
  | none ↦ []
  | some fd ↦ if m.file_writable then write_file fd ∷ [] else []
]

-- The end of NewManager, on the outcome of the load and what is written to the file.
unfoldable pub finish :
    Result AuthError (Unit {0}) × Manager × List Event
    → (Manager → List Event)
    → Result AuthError Manager × List Event
finish (err e, m, events) write = (err e, events)
finish (ok _, m, events) write = (ok m, events ++ write m ++ publish_metrics m)

-- NewManager: `writable` is authPathWritable(opts.Path), `file` what reading the path returns.
unfoldable pub new_manager :
    JsonLib
    → Options
    → (writable : Bool) → (file : Option Str) → Result AuthError Manager × List Event
new_manager json opts writable file =
    if opts.path == []
    then (err path_required, [])
    else if not (is_empty opts.initial_data)
    then finish (load_bytes json opts.initial_data (fresh opts writable)) materialise
    else finish (reload json file (fresh opts writable)) (λ _. [])
