-- ===== src/Store/Audit/Listing.antt =====
-- internal/store/store.go: the filters of a listing of the audit log, and its query.
pub mod Pages
use grok_auth_proxy.Prelude.{
  ℕ, Option, none, some, List, [], ◌∷◌, ◌++◌, Result, ok, err, is_empty, if◌then◌else◌,
}
use grok_auth_proxy.Prelude.Int.{ℤ, pos, pos_part, is_positive, int_leb}
use grok_auth_proxy.Text.{Str}
use grok_auth_proxy.Clock.{Time}
use grok_auth_proxy.Store.Table.{StoreError}
use grok_auth_proxy.Store.Audit.{
  AuditLog, Condition, api_key_is, path_is, model_is, status_at_least, status_at_most, created_from,
  created_to, AuditTable,
}

-- AuditListFilter
pub record AuditListFilter : Type 0 where
  pub api_key_id : Str
  pub path : Str
  pub model : Str
  pub status_min : Option ℤ
  pub status_max : Option ℤ
  pub from : Option Time
  pub to : Option Time
  pub limit : ℤ
  pub offset : ℤ

-- The limit and the offset as ListAuditLogs corrects them.
unfoldable pub correct_limit : ℤ → ℤ
correct_limit limit =
    let positive = if is_positive limit then limit else pos 50 in
    if int_leb positive (pos 500) then positive else pos 500

unfoldable pub correct_offset : ℤ → ℤ
correct_offset offset = if int_leb (pos 0) offset then offset else pos 0

-- `if f.X != "" { … }` and `if f.X != nil { … }`
abbrev pub unless_empty : (Str → Condition) → Str → List Condition
unless_empty condition s = if is_empty s then [] else condition s ∷ []

abbrev pub unless_nil : {A : Type 0} → (A → Condition) → Option A → List Condition
unless_nil condition none = []
unless_nil condition (some a) = condition a ∷ []

-- The conditions of the query.
unfoldable pub conditions : AuditListFilter → List Condition
conditions f =
    unless_empty api_key_is f.api_key_id
    ++ unless_empty path_is f.path
    ++ unless_empty model_is f.model
    ++ unless_nil status_at_least f.status_min
    ++ unless_nil status_at_most f.status_max
    ++ unless_nil created_from f.from
    ++ unless_nil created_to f.to

module _ (table : AuditTable) where
  open table use {Db}

  abbrev pub with_total :
      ℕ → Result StoreError (List AuditLog) → Result StoreError (List AuditLog × ℕ)
  with_total total (err e) = err e
  with_total total (ok rows) = ok (rows, total)

  abbrev pub page :
      Result StoreError ℕ
      → Result StoreError (List AuditLog)
      → Result StoreError (List AuditLog × ℕ)
  page (err e) rows = err e
  page (ok total) rows = with_total total rows

  -- ListAuditLogs: the rows and how many there are in all. The database may change between the two
  -- queries.
  unfoldable pub list_audit_logs :
      AuditListFilter → (at_count at_find : Db) → Result StoreError (List AuditLog × ℕ)
  list_audit_logs f at_count at_find =
      let cs = conditions f in
      page (table.count cs at_count) (
        table.select cs (pos_part (correct_limit f.limit)) (pos_part (correct_offset f.offset))
          at_find)
