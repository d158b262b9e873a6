-- ===== src/Store/Opening/Known.antt =====
-- internal/store/store.go with internal/config/config.go: a validated driver can be opened.
use grok_auth_proxy.Prelude.{
  ◌≡◌, ◌⊎◌, refl, inl, inr, Bool, true, false, not, ◌&&◌, ok, err, ap, is_empty, if_false,
}
use grok_auth_proxy.Text.{Str, codes, ◌==◌, strings}
use grok_auth_proxy.Net.{NetLib}
use grok_auth_proxy.Config.{Config, validate}
use grok_auth_proxy.Config.Validation.{IsKnownDriver, validate-IsSettled}
use grok_auth_proxy.Store.Opening.{
  sqlite, postgres, PoolLimits, OpenEnv, dir_failed, opened, dialector, open_store,
}

-- The database that a driver stands for, with at most so many connections.
abbrev pub IsOpened : Str → PoolLimits → Type 0
IsOpened driver pool =
    ((driver ≡ codes "sqlite")
      × (pool.dialect ≡ sqlite)
      × (pool.max_open ≡ 4)
      × (pool.max_idle ≡ 2))
    ⊎ ((driver ≡ codes "postgres")
        × (pool.dialect ≡ postgres)
        × (pool.max_open ≡ 25)
        × (pool.max_idle ≡ 10))

-- Nothing fails.
abbrev pub working : (dir : Str → Str) → OpenEnv
working dir = record { dir = dir; mkdir_ok = true; open_ok = true; migrate_ok = true }

no_failure : (b c : Bool) → (b && c && not true) ≡ false
no_failure true true = refl
no_failure true false = refl
no_failure false c = refl

known-IsOpened :
    (dir : Str → Str) (driver dsn : Str)
    → IsKnownDriver driver
    → (pool : PoolLimits) × (open_store (working dir) driver dsn ≡ ok pool) × IsOpened driver pool
unfolding open_store dialector strings
known-IsOpened dir driver dsn (inl e) = rw e (
    (
      _,
      ap (opened (working dir) (codes "sqlite")) (
          if_false (not (is_empty (dir dsn)) && not (dir dsn == codes ".") && not true)
            (err dir_failed) (ok sqlite)
            (no_failure (not (is_empty (dir dsn))) (not (dir dsn == codes ".")))),
      inl (refl, refl, refl, refl),
    ))
known-IsOpened dir driver dsn (inr e) = rw e ((_, refl, inr (refl, refl, refl, refl)))

-- A driver that the validation has let through, in whatever case it was written, is one that Open
-- knows: where the directory, the connection and the migration succeed, so does Open, with 4
-- connections at most for SQLite and 25 for PostgreSQL.
pub open_store-IsOpened :
    (net : NetLib) (c c' : Config) (dir : Str → Str) (dsn : Str)
    → validate net c ≡ ok c'
    → (pool : PoolLimits) × (open_store (working dir) c'.db.driver dsn ≡ ok pool)
      × IsOpened c'.db.driver pool
open_store-IsOpened net c c' dir dsn h =
    known-IsOpened dir c'.db.driver dsn (validate-IsSettled net c h).1
