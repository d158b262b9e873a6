-- ===== src/Boot.antt =====
-- cmd/proxy/main.go: how the parts are put together, and in which order.
-- The command reads the settings, opens the store, loads the credentials and builds the server; what it
-- then runs is `run_server`. Logging is left out, but for the level of the logger.
pub mod Restart
mod Tests
use grok_auth_proxy.Prelude.{
  Bool, true, false, not, Option, none, some, List, [], Result, ok, err, is_empty, if◌then◌else◌,
}
use grok_auth_proxy.Text.{Str, codes, ◌==◌, to_lower}
use grok_auth_proxy.Clock.{Time}
use grok_auth_proxy.Auth.Manager.{AuthError, Event, JsonLib, Manager, Options, new_manager}
use grok_auth_proxy.Config.{Config}
use grok_auth_proxy.Config.Loading.{LoadError}
use grok_auth_proxy.Store.Table.{StoreError}
use grok_auth_proxy.Store.State.{StateTable, save_auth_state, load_auth_state}
use grok_auth_proxy.Store.Opening.{OpenError}

pub data Level : Type 0 where
  debug info warn error : Level

-- The level of newLogger.
unfoldable pub log_level : Str → Level
log_level level =
    let l = to_lower level in
    if l == codes "debug"
    then debug
    else if l == codes "warn"
    then warn
    else if l == codes "error"
    then error
    else info

pub data BootError : Type 0 where
  config_failed : LoadError → BootError
  logger_failed : BootError
  store_failed : OpenError → BootError
  auth_failed : AuthError → BootError
  server_failed : BootError

-- The credentials that the database has: an error of it is passed over.
abbrev pub initial_of : Result StoreError (Str × Time) → Str
initial_of (err e) = []
initial_of (ok (blob, updated)) = blob

-- What the manager is built with.
abbrev pub options_of : Config → (initial : Str) → Options
options_of c initial = record {
  path = c.auth.file;
  issuer = c.auth.issuer;
  client_id = c.auth.client_id;
  account = c.auth.account;
  refresh_skew = c.auth.refresh_skew;
  has_persist = true;
  has_metrics = c.metrics.enabled;
  initial_data = initial;
}

module _ (table : StateTable) where
  open table use {Db}

  -- A database after a write, or as it was where the write failed.
  abbrev pub or_same : Db → Result StoreError Db → Db
  or_same db (err e) = db
  or_same db (ok db') = db'

  -- The function that is handed to the manager as Persist, on what json.MarshalIndent gives.
  unfoldable pub persist_state : (payload : Option Str) → (now : Time) → Db → Db
  persist_state none now db = db
  persist_state (some payload) now db = or_same db (save_auth_state table payload now db)

  -- The database is seeded from the file where it had no credentials; `file` is what os.ReadFile gives.
  unfoldable pub seed : (initial : Str) → (file : Option Str) → (now : Time) → Db → Db
  seed initial none now db = db
  seed initial (some raw) now db =
      if not (is_empty initial)
      then db
      else if is_empty raw
      then db
      else or_same db (save_auth_state table raw now db)

  pub record Booted : Type 0 where
    pub manager : Manager
    pub db : Db
    pub events : List Event

  abbrev pub with_credentials :
      (initial : Str)
      → (file : Option Str) → (now : Time) → Db
      → Result AuthError Manager × List Event
      → Result BootError Booted
  with_credentials initial file now db (err e, events) = err (auth_failed e)
  with_credentials initial file now db (ok m, events) =
      ok (record { manager = m; db = seed initial file now db; events = events })

  -- run from LoadAuthState to the seeding. `file` is the content of the credentials' file, and
  -- `file_after` what it is once the manager has been made.
  unfoldable pub boot_auth :
      JsonLib
      → Config
      → (writable : Bool) → (file file_after : Option Str) → (now : Time) → Db
      → Result BootError Booted
  boot_auth json c writable file file_after now db =
      let initial = initial_of (load_auth_state table db) in
      with_credentials initial file_after now db
        (new_manager json (options_of c initial) writable file)

  -- run up to the server: the settings, the logger, the store, the credentials, and the server, each of
  -- which ends it where it fails.
  unfoldable pub boot :
      Result LoadError Config
      → (logger_ok : Bool) → Result OpenError Db
      → (Config → Db → Result BootError Booted)
      → (server_ok : Bool) → Result BootError Booted
  boot (err e) logger_ok opened auth server_ok = err (config_failed e)
  boot (ok c) false opened auth server_ok = err logger_failed
  boot (ok c) true (err e) auth server_ok = err (store_failed e)
  boot (ok c) true (ok db) auth server_ok = built server_ok (auth c db)
    where
      built : Bool → Result BootError Booted → Result BootError Booted
      built server_ok (err e) = err e
      built true (ok b) = ok b
      built false (ok b) = err server_failed
