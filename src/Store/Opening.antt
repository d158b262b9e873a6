-- ===== src/Store/Opening.antt =====
-- internal/store/store.go: Open, as far as it decides which database it opens and with which limits.
-- The file system and the drivers are parameters: the answers of os.MkdirAll, of gorm.Open and db.DB, and
-- of AutoMigrate.
pub mod Known
use grok_auth_proxy.Prelude.{ℕ, ◌*◌, Bool, not, ◌&&◌, Result, ok, err, is_empty, if◌then◌else◌}
use grok_auth_proxy.Text.{Str, codes, ◌==◌, to_lower, equal_fold}
use grok_auth_proxy.Clock.{second}

pub data Dialect : Type 0 where
  sqlite postgres : Dialect

pub data OpenError : Type 0 where
  dir_failed unsupported_driver open_failed migrate_failed : OpenError

-- The limits of the connection pool.
pub record PoolLimits : Type 0 where
  pub dialect : Dialect
  pub max_open : ℕ
  pub max_idle : ℕ
  pub max_life : ℕ
  pub max_idle_time : ℕ

pub record OpenEnv : Type 0 where
  -- filepath.Dir
  pub dir : Str → Str
  pub mkdir_ok : Bool
  pub open_ok : Bool
  pub migrate_ok : Bool

-- The switch on the driver.
unfoldable pub dialector : OpenEnv → (driver dsn : Str) → Result OpenError Dialect
dialector env driver dsn =
    let name = to_lower driver in
    if name == codes "sqlite"
    then if not (is_empty (env.dir dsn)) && not (env.dir dsn == codes ".") && not env.mkdir_ok
      then err dir_failed
      else ok sqlite
    else if name == codes "postgres"
    then ok postgres
    else err unsupported_driver

abbrev pub limits : (is_sqlite : Bool) → ℕ × ℕ
limits is_sqlite = if is_sqlite then (4, 2) else (25, 10)

-- Open past the switch.
abbrev pub opened :
    OpenEnv → (driver : Str) → Result OpenError Dialect → Result OpenError PoolLimits
opened env driver (err e) = err e
opened env driver (ok d) =
    let (max_open, max_idle) = limits (equal_fold driver (codes "sqlite")) in
    if not env.open_ok
    then err open_failed
    else if not env.migrate_ok
    then err migrate_failed
    else ok (record {
      dialect = d;
      max_open = max_open;
      max_idle = max_idle;
      max_life = 30 * 60 * second;
      max_idle_time = 5 * 60 * second;
    })

-- Open
unfoldable pub open_store : OpenEnv → (driver dsn : Str) → Result OpenError PoolLimits
open_store env driver dsn = opened env driver (dialector env driver dsn)
