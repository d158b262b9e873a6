-- ===== src/Store/Audit.antt =====
-- internal/store/store.go: the rows of the audit log and the database that holds them, the insert
-- behind the queue, and the lookup of one row.
-- The database is a parameter, as for the API keys: the statements that the store sends, and what SQL
-- documents of them. A statement that fails leaves the rows as they are. Times are compared as
-- instants, which is what PostgreSQL does; SQLite compares the texts that its driver writes.
pub mod Listing
pub mod Queue
pub mod Found
pub mod Samples
mod Tests
use grok_auth_proxy.Prelude.{
  ℕ, ◌≡◌, Bool, true, false, ◌&&◌, Option, none, some, List, [], ◌∷◌, ◌++◌, Result, ok, err, In,
  is_empty, keep, take, drop, leb, if◌then◌else◌,
}
use grok_auth_proxy.Prelude.Int.{ℤ, int_leb}
use grok_auth_proxy.Text.{Str, ◌==◌}
use grok_auth_proxy.Clock.{Time, is_zero}
use grok_auth_proxy.Store.Text.{random_hex}
use grok_auth_proxy.Store.Table.{StoreError, not_found, random_failed, count_if}

-- AuditLog
pub record AuditLog : Type 0 where
  pub id : Str
  pub created_at : Time
  pub request_id : Str
  pub api_key_id : Str
  pub api_key_name : Str
  pub api_key_prefix : Str
  pub method : Str
  pub path : Str
  pub query : Str
  pub client_ip : Str
  pub user_agent : Str
  pub status_code : ℤ
  pub latency_ms : ℤ
  pub model : Str
  pub stream : Bool
  pub request_body : Str
  pub response_body : Str
  pub request_truncated : Bool
  pub response_truncated : Bool
  pub error : Str

-- The conditions that ListAuditLogs puts into WHERE.
pub data Condition : Type 0 where
  api_key_is path_is model_is : Str → Condition
  status_at_least status_at_most : ℤ → Condition
  created_from created_to : Time → Condition

-- What SQL makes of a condition.
abbrev pub holds_of : AuditLog → Condition → Bool
holds_of r (api_key_is k) = r.api_key_id == k
holds_of r (path_is p) = r.path == p
holds_of r (model_is m) = r.model == m
holds_of r (status_at_least n) = int_leb n r.status_code
holds_of r (status_at_most n) = int_leb r.status_code n
holds_of r (created_from t) = leb t r.created_at
holds_of r (created_to t) = leb r.created_at t

abbrev pub satisfies : List Condition → AuditLog → Bool
satisfies [] r = true
satisfies (c ∷ cs) r = holds_of r c && satisfies cs r

-- The newest come first.
abbrev pub IsDescending : List AuditLog → Type 0
IsDescending [] = Unit
IsDescending (r ∷ rs) =
    ((s : AuditLog) → In s rs → leb s.created_at r.created_at ≡ true) × IsDescending rs

-- The same rows, each as often, in whatever order.
abbrev pub IsReordered : {A : Type 0} → List A → List A → Type 0
IsReordered {A} xs ys = (p : A → Bool) → count_if p xs ≡ count_if p ys

pub record AuditTable : Type 1 where
  pub Db : Type 0
  pub rows : Db → List AuditLog
  -- INSERT
  pub create : AuditLog → Db → Result StoreError Db
  -- SELECT … WHERE id = id ORDER BY id LIMIT 1
  pub first : Str → Db → Result StoreError (Option AuditLog)
  -- SELECT count(*) … WHERE
  pub count : List Condition → Db → Result StoreError ℕ
  -- SELECT … WHERE … ORDER BY created_at DESC LIMIT … OFFSET …
  pub select : List Condition → (limit offset : ℕ) → Db → Result StoreError (List AuditLog)
  -- The id is the primary key.
  pub create_rows :
      (r : AuditLog) (db db' : Db)
      → create r db ≡ ok db'
      → (rows db' ≡ rows db ++ r ∷ []) × ((s : AuditLog) → In s (rows db) → (s.id == r.id) ≡ false)
  pub first_found :
      (id : Str) (db : Db) (r : AuditLog)
      → first id db ≡ ok (some r)
      → In r (rows db) × ((r.id == id) ≡ true)
  pub first_missed :
      (id : Str) (db : Db)
      → first id db ≡ ok none
      → (r : AuditLog) → In r (rows db)
      → (r.id == id) ≡ false
  pub count_rows :
      (cs : List Condition) (db : Db) (n : ℕ)
      → count cs db ≡ ok n
      → n ≡ count_if (satisfies cs) (rows db)
  -- Rows of the same time come in an order of the database's choice.
  pub select_rows :
      (cs : List Condition) (limit offset : ℕ) (db : Db) (rs : List AuditLog)
      → select cs limit offset db ≡ ok rs
      → (sorted : List AuditLog) × IsReordered sorted (keep (satisfies cs) (rows db))
        × IsDescending sorted
        × (rs ≡ take limit (drop offset sorted))

abbrev pub identified : Option Str → AuditLog → Option AuditLog
identified none row = none
identified (some id) row = some (record row { id = id })

abbrev pub dated : Time → AuditLog → AuditLog
dated now row = if is_zero row.created_at then record row { created_at = now } else row

-- The row with an id and a creation time, which InsertAuditLog and insertAuditLogSync fill in where
-- there is none; `none` where rand.Read fails.
unfoldable pub complete : Option (List ℕ) → Time → AuditLog → Option AuditLog
complete random now row =
    if is_empty row.id then identified (random_hex random) (dated now row) else some (dated now row)

module _ (table : AuditTable) where
  open table use {Db}

  abbrev pub create_row : Option AuditLog → Db → Result StoreError Db
  create_row none db = err random_failed
  create_row (some row) db = table.create row db

  -- insertAuditLogSync of a row that is not nil
  unfoldable pub insert_audit_log_sync :
      Option (List ℕ) → Time → AuditLog → Db → Result StoreError Db
  insert_audit_log_sync random now row db = create_row (complete random now row) db

  abbrev pub one_row : Result StoreError (Option AuditLog) → Result StoreError AuditLog
  one_row (err e) = err e
  one_row (ok none) = err not_found
  one_row (ok (some r)) = ok r

  -- GetAuditLog
  unfoldable pub get_audit_log : Str → Db → Result StoreError AuditLog
  get_audit_log id db = one_row (table.first id db)
