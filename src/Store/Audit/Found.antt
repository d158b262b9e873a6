-- ===== src/Store/Audit/Found.antt =====
-- internal/store/store.go: a row of the audit log that has been inserted is found by its id.
use grok_auth_proxy.Prelude.{
  ℕ, ◌≡◌, refl, ◌⊎◌, Option, none, some, List, Result, ok, err, In, In-append, In-append_last, inl,
  inr,
}
use grok_auth_proxy.Text.Laws.{==_refl}
use grok_auth_proxy.Clock.{Time}
use grok_auth_proxy.Store.Table.{StoreError}
use grok_auth_proxy.Store.Audit.{
  AuditLog, AuditTable, complete, insert_audit_log_sync, one_row, get_audit_log,
}

module _ (table : AuditTable) (row : AuditLog) (db db' : table.Db) where
  one_row-ok :
      (o : Result StoreError (Option AuditLog))
      → table.create row db ≡ ok db'
      → table.first row.id db' ≡ o
      → (one_row table o ≡ ok row) ⊎ ((e : StoreError) × (one_row table o ≡ err e) × (o ≡ err e))
  one_row-ok (err e) inserted found = inr (e, refl, refl)
  one_row-ok (ok none) inserted found =
      let (rows, _) = table.create_rows row db db' inserted in
      let here : In row (table.rows db') = rw rows (In-append_last (table.rows db) row) in
      absurd (cc (table.first_missed row.id db' found row here, ==_refl row.id))
  one_row-ok (ok (some s)) inserted found =
      let (rows, fresh) = table.create_rows row db db' inserted in
      let (here, same_id) = table.first_found row.id db' s found in
      elim (In-append (table.rows db) s row (rw rows at here)) [
        | inl earlier ↦ absurd (cc (fresh s earlier, same_id))
        | inr same ↦ inl (rw same)
      ]

-- Once a row has been inserted, with the id and the time that were filled in where it had none, the
-- lookup of its id gives that row, unless the lookup meets an error of the database, which it then
-- passes on.
pub insert-get :
    (table : AuditTable) (random : Option (List ℕ)) (now : Time) (row full : AuditLog)
    (db db' : table.Db)
    → complete random now row ≡ some full
    → insert_audit_log_sync table random now row db ≡ ok db'
    → (get_audit_log table full.id db' ≡ ok full)
      ⊎ ((e : StoreError) × (get_audit_log table full.id db' ≡ err e)
          × (table.first full.id db' ≡ err e))
unfolding insert_audit_log_sync get_audit_log
insert-get table random now row full db db' filled inserted =
    let created : table.create full db ≡ ok db' = rw filled at inserted in
    one_row-ok table full db db' (table.first full.id db') created refl
