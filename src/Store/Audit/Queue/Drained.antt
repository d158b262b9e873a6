-- ===== src/Store/Audit/Queue/Drained.antt =====
-- internal/store/store.go: the end of the workers, which Close waits for.
use grok_auth_proxy.Prelude.{
  ℕ, zero, suc, ◌+◌, ◌*◌, ◌≤◌, ◌<◌, ◌≡◌, refl, ◌∙◌, Bool, true, false, Result, ok, err, List, [],
  ◌∷◌, arith, length, if_elim,
}
use grok_auth_proxy.Store.Table.{StoreError}
use grok_auth_proxy.Store.Audit.{AuditLog, AuditTable, insert_audit_log_sync}
use grok_auth_proxy.Store.Audit.Queue.{
  Worker, selecting, draining, returned, inserting, drain_inserting, AuditState, InsertEnv,
  start_audit_workers, write_result, write_row, receive, step_worker, step_at, Action, insert, work,
  stop, Pool, act, run, open_audit,
}
use grok_auth_proxy.Store.Audit.Queue.Accounted.{run-IsReordered}

abbrev pub has_returned : Worker → Bool
has_returned returned = true
has_returned _ = false

-- The worker of that number has returned, or there is none.
abbrev pub is_over : ℕ → List Worker → Bool
is_over i [] = true
is_over zero (w ∷ ws) = has_returned w
is_over (suc i) (w ∷ ws) = is_over i ws

-- How far a worker is from its return, and the whole pool.
abbrev pub distance : Worker → ℕ
distance returned = 0
distance draining = 1
distance (drain_inserting r) = 2
distance selecting = 2
distance (inserting r) = 3

abbrev pub distances : List Worker → ℕ
distances [] = 0
distances (w ∷ ws) = distance w + distances ws

module _ (table : AuditTable) where
  open table use {Db}

  abbrev pub remaining : Pool table → ℕ
  remaining (ws, s) = distances ws + 2 * length s.queue

  -- An insert leaves the queue and the stop as they are.
  abbrev IsKept : AuditState Db → AuditState Db → Type 0
  IsKept s s' = (s'.queue ≡ s.queue) × (s'.stopped ≡ s.stopped)

  write_result-IsKept :
      (row : AuditLog) (r : Result StoreError Db) (s : AuditState Db)
      → IsKept s (write_result table row r s).1
  write_result-IsKept row (err e) s = (refl, refl)
  write_result-IsKept row (ok db) s = (refl, refl)

  pub write_row-IsKept :
      (env : InsertEnv) (row : AuditLog) (s : AuditState Db)
      → IsKept s (write_row table env row s).1
  unfolding write_row
  write_row-IsKept env row s =
      write_result-IsKept row (insert_audit_log_sync table env.random env.now row s.db) s

  -- A step of a worker under way, once the stop is there.
  abbrev IsCloser : Worker → AuditState Db → Worker × AuditState Db → Type 0
  IsCloser w s (w', s') =
      (has_returned w ≡ false → distance w' + 2 * length s'.queue < distance w + 2 * length s.queue)
      × (s'.stopped ≡ s.stopped)

  receive-IsCloser :
      (w : Worker) (got : AuditLog → Worker) (otherwise : Worker) (q : List AuditLog)
      (s : AuditState Db)
      → s.queue ≡ q
      → ((r : AuditLog) → distance (got r) ≡ distance w + 1)
      → (has_returned w ≡ false → distance otherwise < distance w)
      → IsCloser w s (receive table got otherwise q s)
  receive-IsCloser w got otherwise [] s e h h' = (λ b. omega (arith, h' b), refl)
  receive-IsCloser w got otherwise (r ∷ q) s e h h' = (λ b. rw e (omega (arith, h r)), refl)

  step_worker-IsCloser :
      (env : InsertEnv) (b : Bool) (w : Worker) (s : AuditState Db)
      → s.stopped ≡ true
      → IsCloser w s (step_worker table env b w s)
  unfolding step_worker
  step_worker-IsCloser env b selecting s h =
      if_elim (IsCloser selecting s) s.stopped
        (λ _.
          if_elim (IsCloser selecting s) b (λ _. (λ _. omega arith, refl))
            (λ _.
              receive-IsCloser selecting inserting draining s.queue s refl (λ r. refl)
                (λ _. omega arith)))
        (λ e. absurd (cc))
  step_worker-IsCloser env b (inserting row) s h =
      let (a, c) = write_row-IsKept env row s in (λ _. rw a (omega arith), c)
  step_worker-IsCloser env b draining s h =
      receive-IsCloser draining drain_inserting returned s.queue s refl (λ r. refl)
        (λ _. omega arith)
  step_worker-IsCloser env b (drain_inserting row) s h =
      let (a, c) = write_row-IsKept env row s in (λ _. rw a (omega arith), c)
  step_worker-IsCloser env b returned s h = (λ e. absurd (cc), refl)

  step_at-IsCloser :
      (env : InsertEnv) (b : Bool) (i : ℕ) (ws : List Worker) (s : AuditState Db)
      → s.stopped ≡ true
      → let x = step_at table env b i ws s in
        (is_over i ws ≡ false → remaining x < remaining (ws, s)) × (x.1.stopped ≡ true)
  unfolding step_at
  step_at-IsCloser env b i [] s h = (λ e. absurd (cc), h)
  step_at-IsCloser env b zero (w ∷ ws) s h =
      let (closer, same) = step_worker-IsCloser env b w s h in
      (λ e. omega (arith, closer e), same ∙ h)
  step_at-IsCloser env b (suc i) (w ∷ ws) s h =
      let (closer, same) = step_at-IsCloser env b i ws s h in (λ e. omega (arith, closer e), same)

  -- Each action is a step of a worker that has not returned.
  abbrev pub IsBusy : List Action → Pool table → Type 0
  IsBusy [] x = Unit
  IsBusy (work env b i ∷ rest) x =
      (is_over i x.0 ≡ false) × IsBusy rest (act table (work env b i) x)
  IsBusy (_ ∷ rest) x = ⊥

  pub run_busy :
      (actions : List Action) (x : Pool table)
      → x.1.stopped ≡ true
      → IsBusy actions x
      → length actions + remaining (run table actions x) ≤ remaining x
  unfolding run act
  run_busy [] x h busy = omega arith
  run_busy (insert env row ∷ rest) x h busy = elim busy [ ]
  run_busy (stop ∷ rest) x h busy = elim busy [ ]
  run_busy (work env b i ∷ rest) x h (first, busy) =
      let (closer, stopped) = step_at-IsCloser env b i x.0 x.1 h in
      omega (arith, closer first, run_busy rest (step_at table env b i x.0 x.1) stopped busy)

distances_bound : (ws : List Worker) → distances ws ≤ 3 * length ws
distances_bound [] = omega arith
distances_bound (returned ∷ ws) = omega (arith, distances_bound ws)
distances_bound (draining ∷ ws) = omega (arith, distances_bound ws)
distances_bound (selecting ∷ ws) = omega (arith, distances_bound ws)
distances_bound (inserting r ∷ ws) = omega (arith, distances_bound ws)
distances_bound (drain_inserting r ∷ ws) = omega (arith, distances_bound ws)

module _ (table : AuditTable) where
  step_at-length :
      (env : InsertEnv) (b : Bool) (i : ℕ) (ws : List Worker) (s : AuditState table.Db)
      → length (step_at table env b i ws s).0 ≡ length ws
  unfolding step_at
  step_at-length env b i [] s = refl
  step_at-length env b zero (w ∷ ws) s = refl
  step_at-length env b (suc i) (w ∷ ws) s = omega (arith, step_at-length env b i ws s)

  run-length :
      (actions : List Action) (x : Pool table) → length (run table actions x).0 ≡ length x.0
  unfolding run act
  run-length [] x = refl
  run-length (insert env row ∷ rest) x = run-length rest (act table (insert env row) x)
  run-length (work env b i ∷ rest) x =
      run-length rest (act table (work env b i) x) ∙ step_at-length env b i x.0 x.1
  run-length (stop ∷ rest) x = run-length rest (act table stop x)

pub run_open-length :
    (table : AuditTable) (actions : List Action) (db : table.Db)
    → length (run table actions (open_audit table db)).0 ≡ 2
unfolding open_audit start_audit_workers
run_open-length table actions db = run-length table actions (open_audit table db)

-- Close waits for the workers, and that wait is finite: whatever has happened since the store was
-- opened, once the stop is there and no further row comes in, the workers take at most 8198 steps
-- before each of them has returned, however the scheduler chooses between them and between the
-- two cases of their select.
pub drain_bounded :
    (table : AuditTable) (before drain : List Action) (db : table.Db)
    → let x = act table stop (run table before (open_audit table db)) in
      IsBusy table drain x → length drain ≤ 8198
unfolding act open_audit start_audit_workers
drain_bounded table before drain db busy =
    let x₀ = open_audit table db in
    let x = run table before x₀ in
    let (bound, _) = run-IsReordered table before db in
    omega (
      arith,
      run_busy table drain (act table stop x) refl busy,
      bound,
      distances_bound x.0,
      run_open-length table before db,
    )
