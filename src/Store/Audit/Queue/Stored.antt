-- ===== src/Store/Audit/Queue/Stored.antt =====
-- internal/store/store.go: the rows that the workers leave in the database.
use grok_auth_proxy.Prelude.{
  ℕ, zero, suc, ◌+◌, ◌≡◌, refl, Bool, Option, none, some, List, [], ◌∷◌, Result, ok, err, arith,
  sym, ap, length, ltb, if_elim,
}
use grok_auth_proxy.Clock.{Time}
use grok_auth_proxy.Store.Table.{StoreError, count_if}
use grok_auth_proxy.Store.Audit.{AuditLog, AuditTable, complete, create_row, insert_audit_log_sync}
use grok_auth_proxy.Store.Audit.Queue.{
  audit_queue_size, Worker, selecting, draining, returned, inserting, drain_inserting, Outcome,
  accepted, dropped, written, lost, AuditState, InsertEnv, start_audit_workers, write_result,
  write_row, offer, insert_completed, insert_audit_log, receive, step_worker, step_at, Action,
  insert, work, stop, Pool, act, run, open_audit,
}
use grok_auth_proxy.Store.Audit.Queue.Accounted.{settled, held, in_hand, count_if-append}
use grok_auth_proxy.Store.Audit.Queue.Filled.{
  IsFull, AllFull, IsUsable, complete_full, complete-IsFull, AllFull-append, AllFull-split,
}

-- The rows that an insert has put into the database.
abbrev pub stored : List Outcome → List AuditLog
stored [] = []
stored (written r ∷ h) = r ∷ stored h
stored (_ ∷ h) = stored h

-- The rows whose insert has failed.
abbrev pub lost_rows : List Outcome → List AuditLog
lost_rows [] = []
lost_rows (lost r ∷ h) = r ∷ lost_rows h
lost_rows (_ ∷ h) = lost_rows h

pub settled-split :
    (p : AuditLog → Bool) (h : List Outcome)
    → count_if p (settled h) ≡ count_if p (stored h) + count_if p (lost_rows h)
settled-split p [] = omega arith
settled-split p (accepted r ∷ h) = settled-split p h
settled-split p (dropped r ∷ h) = settled-split p h
settled-split p (written r ∷ h) = omega (arith, settled-split p h)
settled-split p (lost r ∷ h) = omega (arith, settled-split p h)

abbrev pub AllUsable : List Action → Type 0
AllUsable [] = Unit
AllUsable (insert env row ∷ actions) = IsUsable env × AllUsable actions
AllUsable (_ ∷ actions) = AllUsable actions

module _ (table : AuditTable) (base : List AuditLog) where
  open table use {Db, rows}

  -- The rows of the database are those at the start and those that have been written.
  abbrev pub IsBacked : AuditState Db → Type 0
  IsBacked s =
      (p : AuditLog → Bool)
      → count_if p (rows s.db) ≡ count_if p base + count_if p (stored s.history)

  abbrev IsTidy : List AuditLog → AuditState Db → Type 0
  IsTidy hand s = AllFull hand × AllFull s.queue × IsBacked s

  write_result-IsTidy :
      (row : AuditLog) (r : Result StoreError Db) (s : AuditState Db)
      → table.create row s.db ≡ r
      → AllFull s.queue
      → IsBacked s
      → IsTidy [] (write_result table row r s).1
  write_result-IsTidy row (err e) s h full backed = (tt, full, backed)
  write_result-IsTidy row (ok db) s h full backed = (
    tt,
    full,
    λ p.
        let (inserted, _) = table.create_rows row s.db db h in
        rw inserted (omega (arith, backed p, count_if-append p (rows s.db) (row ∷ []))),
  )

  insert_full :
      (random : Option (List ℕ)) (now : Time) (row : AuditLog) (db : Db)
      → IsFull row
      → insert_audit_log_sync table random now row db ≡ table.create row db
  unfolding insert_audit_log_sync
  insert_full random now row db here =
      ap (λ r. create_row table r db) (complete_full random now row here)

  write_row-IsTidy :
      (env : InsertEnv) (row : AuditLog) (s : AuditState Db)
      → IsTidy (row ∷ []) s
      → IsTidy [] (write_row table env row s).1
  unfolding write_row
  write_row-IsTidy env row s ((here, _), full, backed) =
      write_result-IsTidy row (insert_audit_log_sync table env.random env.now row s.db) s
        (sym (insert_full env.random env.now row s.db here)) full backed

  offer-IsTidy :
      (row : AuditLog) (s : AuditState Db)
      → IsFull row
      → IsTidy [] s
      → IsTidy [] (offer table row s)
  unfolding offer
  offer-IsTidy row s here (_, full, backed) =
      if_elim (IsTidy []) (ltb (length s.queue) audit_queue_size)
        (λ _. (tt, AllFull-append s.queue (row ∷ []) full (here, tt), backed))
        (λ _. (tt, full, backed))

  insert_completed-IsTidy :
      (env : InsertEnv) (row : Option AuditLog) (s : AuditState Db)
      → ((r : AuditLog) → row ≡ some r → IsFull r)
      → IsTidy [] s
      → IsTidy [] (insert_completed table env row s).1
  insert_completed-IsTidy env none s h tidy = tidy
  insert_completed-IsTidy env (some row) s h (_, full, backed) =
      if_elim (λ (r : Result StoreError (Unit {0}) × AuditState Db). IsTidy [] r.1) s.has_queue
        (λ _. offer-IsTidy row s (h row refl) (tt, full, backed))
        (λ _. write_row-IsTidy env row _ ((h row refl, tt), full, backed))

  insert_audit_log-IsTidy :
      (env : InsertEnv) (row : Option AuditLog) (s : AuditState Db)
      → IsUsable env
      → IsTidy [] s
      → IsTidy [] (insert_audit_log table env row s).1
  unfolding insert_audit_log
  insert_audit_log-IsTidy env none s usable tidy = tidy
  insert_audit_log-IsTidy env (some row) s usable tidy =
      insert_completed-IsTidy env (complete env.random env.now row) s
        (λ r h. complete-IsFull env row r usable h) tidy

  receive-IsTidy :
      (got : AuditLog → Worker) (otherwise : Worker) (q : List AuditLog) (s : AuditState Db)
      → s.queue ≡ q
      → ((r : AuditLog) → held (got r) ≡ r ∷ [])
      → held otherwise ≡ []
      → IsTidy [] s
      → let (w, s') = receive table got otherwise q s in IsTidy (held w) s'
  receive-IsTidy got otherwise [] s e h h' tidy = rw h' tidy
  receive-IsTidy got otherwise (r ∷ q) s e h h' (_, full, backed) =
      let (here, full') = rw e at full in rw (h r) ((here, tt), full', backed)

  step_worker-IsTidy :
      (env : InsertEnv) (b : Bool) (w : Worker) (s : AuditState Db)
      → IsTidy (held w) s
      → let (w', s') = step_worker table env b w s in IsTidy (held w') s'
  unfolding step_worker
  step_worker-IsTidy env b selecting s tidy =
      let P : Worker × AuditState Db → Type 0 = λ x. IsTidy (held x.0) x.1 in
      if_elim P s.stopped
        (λ _.
          if_elim P b (λ _. tidy)
            (λ _. receive-IsTidy inserting draining s.queue s refl (λ r. refl) refl tidy))
        (λ _. receive-IsTidy inserting selecting s.queue s refl (λ r. refl) refl tidy)
  step_worker-IsTidy env b (inserting row) s tidy = write_row-IsTidy env row s tidy
  step_worker-IsTidy env b draining s tidy =
      receive-IsTidy drain_inserting returned s.queue s refl (λ r. refl) refl tidy
  step_worker-IsTidy env b (drain_inserting row) s tidy = write_row-IsTidy env row s tidy
  step_worker-IsTidy env b returned s tidy = tidy

  step_at-IsTidy :
      (env : InsertEnv) (b : Bool) (i : ℕ) (ws : List Worker) (s : AuditState Db)
      → IsTidy (in_hand ws) s
      → let (ws', s') = step_at table env b i ws s in IsTidy (in_hand ws') s'
  unfolding step_at
  step_at-IsTidy env b i [] s tidy = tidy
  step_at-IsTidy env b zero (w ∷ ws) s (hand, full, backed) =
      let (mine, others) = AllFull-split (held w) (in_hand ws) hand in
      let (w', s') = step_worker table env b w s in
      let (mine', full', backed') = step_worker-IsTidy env b w s (mine, full, backed) in
      (AllFull-append (held w') (in_hand ws) mine' others, full', backed')
  step_at-IsTidy env b (suc i) (w ∷ ws) s (hand, full, backed) =
      let (mine, others) = AllFull-split (held w) (in_hand ws) hand in
      let (ws', s') = step_at table env b i ws s in
      let (others', full', backed') = step_at-IsTidy env b i ws s (others, full, backed) in
      (AllFull-append (held w) (in_hand ws') mine others', full', backed')

  run-IsTidy :
      (actions : List Action) (x : Pool table)
      → AllUsable actions
      → IsTidy (in_hand x.0) x.1
      → let (ws, s) = run table actions x in IsTidy (in_hand ws) s
  unfolding run act
  run-IsTidy [] x usable tidy = tidy
  run-IsTidy (insert env row ∷ rest) x (here, usable) (hand, full, backed) =
      let (_, full', backed') = insert_audit_log-IsTidy env row x.1 here (tt, full, backed) in
      run-IsTidy rest (act table (insert env row) x) usable (hand, full', backed')
  run-IsTidy (work env b i ∷ rest) x usable tidy =
      run-IsTidy rest (act table (work env b i) x) usable (step_at-IsTidy env b i x.0 x.1 tidy)
  run-IsTidy (stop ∷ rest) x usable tidy = run-IsTidy rest (act table stop x) usable tidy

pub run-IsBacked :
    (table : AuditTable) (actions : List Action) (db : table.Db)
    → AllUsable actions
    → IsBacked table (table.rows db) (run table actions (open_audit table db)).1
unfolding open_audit start_audit_workers
run-IsBacked table actions db usable =
    (run-IsTidy table (table.rows db) actions (open_audit table db) usable
      (tt, tt, λ p. omega arith)).2
