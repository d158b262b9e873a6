-- ===== src/Store/Keys/Operations.antt =====
-- The operations of the store on keys, in a row; what each does to the rows.
use grok_auth_proxy.Prelude.{
  ℕ, ◌≡◌, refl, true, false, Option, some, List, [], ◌∷◌, Result, ok, err, arith, is_some, eqb,
  if◌then◌else◌,
}
use grok_auth_proxy.Float.{Float64}
use grok_auth_proxy.Text.{Str, ◌==◌}
use grok_auth_proxy.Clock.{Time}
use grok_auth_proxy.Store.Text.{CryptoLib, random_hex}
use grok_auth_proxy.Store.Table.{StoreError, not_found, ApiKey, revoke_row, touch_row, KeyTable}
use grok_auth_proxy.Store.Cache.{invalidate_cache_by_id}
use grok_auth_proxy.Store.Keys.{
  KeyStore, CreateEnv, create_key, revoke_key, run_pending, validate_plaintext,
}

-- A row of the key is marked as revoked.
abbrev pub IsRetired : Str → ApiKey → Type 0
IsRetired id rec = (rec.id == id) ≡ true → is_some rec.revoked_at ≡ true

pub revoke_row-IsRetired :
    (id : Str) (now : Time) (rec : ApiKey) → IsRetired id (revoke_row id now rec)
revoke_row-IsRetired id now rec = ground arith

pub revoke_row-keeps :
    (id id' : Str) (now : Time) (rec : ApiKey)
    → IsRetired id rec
    → IsRetired id (revoke_row id' now rec)
revoke_row-keeps id id' now rec h = ground arith

pub touch_row-keeps :
    (id id' : Str) (now : Time) (rec : ApiKey)
    → IsRetired id rec
    → IsRetired id (touch_row id' now rec)
touch_row-keeps id id' now rec h = ground arith

-- The operations of the store on keys, at what each meets.
pub data Op : Type 0 where
  create : CreateEnv → (name : Str) → Option Float64 → Op
  validate : (plaintext : Str) (now now_get : Time) → Op
  revoke : (id : Str) (now : Time) → Op
  write_last_used : Op

-- No key is created under the id.
abbrev pub Avoids : Str → List Op → Type 0
Avoids id [] = Unit
Avoids id (create env name rps ∷ ops) =
    ((x : Str) → random_hex env.random_id ≡ some x → (x == id) ≡ false) × Avoids id ops
Avoids id (_ ∷ ops) = Avoids id ops

module _ (crypto : CryptoLib) (table : KeyTable) where
  open table use {Db, rows}

  unfoldable pub run_op : Op → KeyStore Db → KeyStore Db
  run_op (create env name rps) s = (create_key crypto table env name rps s).1
  run_op (validate plaintext now now_get) s =
      (validate_plaintext crypto table plaintext now now_get s).1
  run_op (revoke id now) s = (revoke_key crypto table id now s).1
  run_op write_last_used s = run_pending crypto table s

  unfoldable pub run_ops : List Op → KeyStore Db → KeyStore Db
  run_ops [] s = s
  run_ops (op ∷ ops) s = run_ops ops (run_op op s)

  -- The store after a revocation, by what the database answers.
  abbrev pub revoked :
      Str → Result StoreError (ℕ × Db) → KeyStore Db → Result StoreError (Unit {0}) × KeyStore Db
  revoked id (err e) s = (err e, s)
  revoked id (ok (n, db)) s =
      if eqb n 0
      then (err not_found, record s { db = db })
      else (ok tt, record s { db = db; cache = invalidate_cache_by_id id s.cache })

  pub revoke_key_lem :
      (id : Str) (now : Time) (s : KeyStore Db)
      → revoke_key crypto table id now s ≡ revoked id (table.revoke id now s.db) s
  unfolding revoke_key
  revoke_key_lem id now s = by_result (table.revoke id now s.db) refl
    where
      by_result :
          (r : Result StoreError (ℕ × Db))
          → table.revoke id now s.db ≡ r
          → revoke_key crypto table id now s ≡ revoked id r s
      by_result (err e) p = rw (p, revoke_key)
      by_result (ok (n, db)) p = rw (p, revoke_key)
