-- ===== src/Store/Audit/Queue/Early.antt =====
-- internal/store/store.go: before Close, no worker has seen the stop.
use grok_auth_proxy.Prelude.{
  ℕ, zero, suc, ◌≡◌, refl, ◌∙◌, Bool, true, false, ◌&&◌, ltb, Option, none, some, Result, List, [],
  ◌∷◌, any, arith, length, if_elim,
}
use grok_auth_proxy.Store.Audit.{AuditLog, AuditTable, complete}
use grok_auth_proxy.Store.Table.{StoreError}
use grok_auth_proxy.Store.Audit.Queue.{
  Worker, selecting, draining, returned, inserting, drain_inserting, AuditState, InsertEnv,
  audit_queue_size, offer, insert_completed, insert_audit_log, receive, step_worker, step_at,
  Action, insert, work, stop, Pool, act, run,
}
use grok_auth_proxy.Store.Audit.Queue.Drained.{has_returned, write_row-IsKept}

-- Only requests and workers run.
abbrev pub IsRunning : List Action → Type 0
IsRunning [] = Unit
IsRunning (insert _ _ ∷ actions) = IsRunning actions
IsRunning (work _ _ _ ∷ actions) = IsRunning actions
IsRunning (stop ∷ actions) = ⊥

-- The worker has not seen the stop.
abbrev is_early : Worker → Bool
is_early selecting = true
is_early (inserting r) = true
is_early _ = false

abbrev pub all_early : List Worker → Bool
all_early [] = true
all_early (w ∷ ws) = is_early w && all_early ws

module _ (table : AuditTable) where
  open table use {Db}

  abbrev pub IsEarly : Bool → AuditState Db → Type 0
  IsEarly early s = (early ≡ true) × (s.stopped ≡ false)

  offer-stopped : (row : AuditLog) (s : AuditState Db) → (offer table row s).stopped ≡ s.stopped
  unfolding offer
  offer-stopped row s =
      if_elim (λ (s' : AuditState Db). s'.stopped ≡ s.stopped)
        (ltb (length s.queue) audit_queue_size) (λ _. refl) (λ _. refl)

  insert_completed-stopped :
      (env : InsertEnv) (row : Option AuditLog) (s : AuditState Db)
      → (insert_completed table env row s).1.stopped ≡ s.stopped
  insert_completed-stopped env none s = refl
  insert_completed-stopped env (some row) s =
      if_elim (λ (r : Result StoreError (Unit {0}) × AuditState Db). r.1.stopped ≡ s.stopped)
        s.has_queue (λ _. offer-stopped row s) (λ _. (write_row-IsKept table env row _).1)

  insert_audit_log-stopped :
      (env : InsertEnv) (row : Option AuditLog) (s : AuditState Db)
      → (insert_audit_log table env row s).1.stopped ≡ s.stopped
  unfolding insert_audit_log
  insert_audit_log-stopped env none s = refl
  insert_audit_log-stopped env (some row) s =
      insert_completed-stopped env (complete env.random env.now row) s

  step_worker-IsEarly :
      (env : InsertEnv) (b : Bool) (w : Worker) (s : AuditState Db)
      → IsEarly (is_early w) s
      → let (w', s') = step_worker table env b w s in IsEarly (is_early w') s'
  unfolding step_worker
  step_worker-IsEarly env b selecting s (h, run) =
      if_elim (λ (x : Worker × AuditState Db). IsEarly (is_early x.0) x.1) s.stopped
        (λ e. absurd (cc)) (λ _. received s.queue)
    where
      received :
          (q : List AuditLog)
          → let (w', s') = receive table inserting selecting q s in IsEarly (is_early w') s'
      received [] = (refl, run)
      received (r ∷ q) = (refl, run)
  step_worker-IsEarly env b (inserting row) s (h, run) =
      (refl, (write_row-IsKept table env row s).1 ∙ run)
  step_worker-IsEarly env b draining s (h, run) = absurd (cc)
  step_worker-IsEarly env b (drain_inserting row) s (h, run) = absurd (cc)
  step_worker-IsEarly env b returned s (h, run) = absurd (cc)

  step_at-IsEarly :
      (env : InsertEnv) (b : Bool) (i : ℕ) (ws : List Worker) (s : AuditState Db)
      → IsEarly (all_early ws) s
      → let (ws', s') = step_at table env b i ws s in IsEarly (all_early ws') s'
  unfolding step_at
  step_at-IsEarly env b i [] s h = h
  step_at-IsEarly env b zero (w ∷ ws) s (h, run) =
      let (early, run') = step_worker-IsEarly env b w s (ground arith, run) in (ground arith, run')
  step_at-IsEarly env b (suc i) (w ∷ ws) s (h, run) =
      let (early, run') = step_at-IsEarly env b i ws s (ground arith, run) in (ground arith, run')

  pub run_running-IsEarly :
      (actions : List Action) (x : Pool table)
      → IsRunning actions
      → IsEarly (all_early x.0) x.1
      → let y = run table actions x in IsEarly (all_early y.0) y.1
  unfolding run act
  run_running-IsEarly [] x running h = h
  run_running-IsEarly (insert env row ∷ rest) x running (h, r) =
      run_running-IsEarly rest (act table (insert env row) x) running
        (h, insert_audit_log-stopped env row x.1 ∙ r)
  run_running-IsEarly (work env b i ∷ rest) x running h =
      run_running-IsEarly rest (act table (work env b i) x) running
        (step_at-IsEarly env b i x.0 x.1 h)
  run_running-IsEarly (stop ∷ rest) x running h = elim running [ ]

pub early_returned : (ws : List Worker) → all_early ws ≡ true → any has_returned ws ≡ false
early_returned [] h = refl
early_returned (returned ∷ ws) h = absurd (cc)
early_returned (draining ∷ ws) h = absurd (cc)
early_returned (selecting ∷ ws) h = early_returned ws h
early_returned (inserting r ∷ ws) h = early_returned ws h
early_returned (drain_inserting r ∷ ws) h = absurd (cc)
