-- ===== src/Store/Audit/Queue.antt =====
-- internal/store/store.go: the queue of the audit log, its workers, and how they stop.
-- An interleaving of the requests, the workers and Close is a list of actions, each of them one
-- synchronisation on a channel or one insert. `history` records what has happened to each row; the
-- code has no such field.
pub mod Accounted
pub mod Drained
pub mod Dry
pub mod Early
pub mod Filled
pub mod Stored
pub mod Closed
use grok_auth_proxy.Prelude.{
  ℕ, zero, suc, Bool, true, false, Option, none, some, List, [], ◌∷◌, ◌++◌, Result, ok, err, length,
  ltb, if◌then◌else◌,
}
use grok_auth_proxy.Clock.{Time}
use grok_auth_proxy.Store.Table.{StoreError, nil_audit_log, random_failed}
use grok_auth_proxy.Store.Audit.{AuditLog, AuditTable, complete, insert_audit_log_sync}

abbrev pub audit_queue_size : ℕ
audit_queue_size = 4096

abbrev pub audit_workers : ℕ
audit_workers = 2

-- Where a worker stands: at the outer select; in an insert; at the inner select, once the stop has
-- been seen; in an insert from there; or past its return.
pub data Worker : Type 0 where
  selecting draining returned : Worker
  inserting drain_inserting : AuditLog → Worker

pub data Outcome : Type 0 where
  accepted dropped written lost : AuditLog → Outcome

-- The fields of Store that concern the audit log. `has_queue` says that auditCh is not nil.
pub record AuditState (Db : Type 0) : Type 0 where
  pub db : Db
  pub has_queue : Bool
  pub queue : List AuditLog
  pub stopped : Bool
  pub history : List Outcome

-- What rand.Read and the clock give to an insert.
pub record InsertEnv : Type 0 where
  pub random : Option (List ℕ)
  pub now : Time

-- startAuditWorkers
abbrev pub replicate : ℕ → List Worker
replicate zero = []
replicate (suc n) = selecting ∷ replicate n

unfoldable pub start_audit_workers : ℕ → List Worker
start_audit_workers n = if ltb n 1 then replicate 1 else replicate n

module _ (table : AuditTable) where
  open table use {Db}

  abbrev pub write_result :
      AuditLog → Result StoreError Db → AuditState Db → Result StoreError (Unit {0}) × AuditState Db
  write_result row (err e) s = (err e, record s { history = lost row ∷ s.history })
  write_result row (ok db) s = (ok tt, record s { db = db; history = written row ∷ s.history })

  -- insertAuditLogSync, whose outcome goes into the history
  unfoldable pub write_row :
      InsertEnv → AuditLog → AuditState Db → Result StoreError (Unit {0}) × AuditState Db
  write_row env row s = write_result row (insert_audit_log_sync table env.random env.now row s.db) s

  -- The non-blocking send.
  unfoldable pub offer : AuditLog → AuditState Db → AuditState Db
  offer row s =
      if ltb (length s.queue) audit_queue_size
      then record s { queue = s.queue ++ row ∷ []; history = accepted row ∷ s.history }
      else record s { history = dropped row ∷ s.history }

  abbrev pub insert_completed :
      InsertEnv → Option AuditLog → AuditState Db → Result StoreError (Unit {0}) × AuditState Db
  insert_completed env none s = (err random_failed, s)
  insert_completed env (some row) s =
      if s.has_queue
      then (ok tt, offer row s)
      else write_row env row (record s { history = accepted row ∷ s.history })

  -- InsertAuditLog; `none` is a nil row.
  unfoldable pub insert_audit_log :
      InsertEnv → Option AuditLog → AuditState Db → Result StoreError (Unit {0}) × AuditState Db
  insert_audit_log env none s = (err nil_audit_log, s)
  insert_audit_log env (some row) s = insert_completed env (complete env.random env.now row) s

  -- A worker receives the head of the queue; where there is none, it stays or gives up.
  abbrev pub receive :
      (AuditLog → Worker)
      → (otherwise : Worker) → List AuditLog
      → AuditState Db
      → Worker × AuditState Db
  receive got otherwise [] s = (otherwise, s)
  receive got otherwise (row ∷ rest) s = (got row, record s { queue = rest })

  -- The next step of a worker. Where both cases of the outer select are ready, `prefers_stop` is the
  -- choice of the scheduler.
  unfoldable pub step_worker :
      InsertEnv → (prefers_stop : Bool) → Worker → AuditState Db → Worker × AuditState Db
  step_worker env prefers_stop selecting s =
      if s.stopped
      then if prefers_stop then (draining, s) else receive inserting draining s.queue s
      else receive inserting selecting s.queue s
  step_worker env prefers_stop (inserting row) s = (selecting, (write_row env row s).1)
  step_worker env prefers_stop draining s = receive drain_inserting returned s.queue s
  step_worker env prefers_stop (drain_inserting row) s = (draining, (write_row env row s).1)
  step_worker env prefers_stop returned s = (returned, s)

  -- The same for one worker of all.
  unfoldable pub step_at :
      InsertEnv → Bool → ℕ → List Worker → AuditState Db → List Worker × AuditState Db
  step_at env b i [] s = ([], s)
  step_at env b zero (w ∷ ws) s = let (w', s') = step_worker env b w s in (w' ∷ ws, s')
  step_at env b (suc i) (w ∷ ws) s = let (ws', s') = step_at env b i ws s in (w ∷ ws', s')

pub data Action : Type 0 where
  insert : InsertEnv → Option AuditLog → Action
  work : InsertEnv → (prefers_stop : Bool) → (worker : ℕ) → Action
  stop : Action

module _ (table : AuditTable) where
  open table use {Db}

  abbrev pub Pool : Type 0
  Pool = List Worker × AuditState Db

  unfoldable pub act : Action → Pool → Pool
  act (insert env row) (ws, s) = (ws, (insert_audit_log table env row s).1)
  act (work env b i) (ws, s) = step_at table env b i ws s
  act stop (ws, s) = (ws, record s { stopped = true })

  unfoldable pub run : List Action → Pool → Pool
  run [] p = p
  run (a ∷ rest) p = run rest (act a p)

  -- The fields that Open sets.
  unfoldable pub open_audit : Db → Pool
  open_audit db = (
    start_audit_workers audit_workers,
    record { db = db; has_queue = true; queue = []; stopped = false; history = [] },
  )
