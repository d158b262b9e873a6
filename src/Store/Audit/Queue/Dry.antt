-- ===== src/Store/Audit/Queue/Dry.antt =====
-- internal/store/store.go: a worker returns where the queue is empty, and no worker fills it.
use grok_auth_proxy.Prelude.{
  ℕ, zero, suc, ◌≡◌, refl, ◌∙◌, Bool, true, false, ◌&&◌, Bool-cases, inl, inr, List, [], ◌∷◌, any,
  arith, if_elim,
}
use grok_auth_proxy.Store.Audit.{AuditLog, AuditTable}
use grok_auth_proxy.Store.Audit.Queue.{
  Worker, selecting, draining, returned, inserting, drain_inserting, AuditState, InsertEnv, receive,
  step_worker, step_at, Action, insert, work, stop, Pool, act, run,
}
use grok_auth_proxy.Store.Audit.Queue.Drained.{has_returned, write_row-IsKept}

abbrev pub all_returned : List Worker → Bool
all_returned [] = true
all_returned (w ∷ ws) = has_returned w && all_returned ws

-- Only workers run.
abbrev pub IsWaiting : List Action → Type 0
IsWaiting [] = Unit
IsWaiting (work _ _ _ ∷ actions) = IsWaiting actions
IsWaiting (_ ∷ actions) = ⊥

module _ (table : AuditTable) where
  open table use {Db}

  -- A worker that has returned has met an empty queue.
  abbrev IsDry : Worker → AuditState Db → Type 0
  IsDry w s = has_returned w ≡ true → s.queue ≡ []

  -- An empty queue stays empty, and a step to the return meets one.
  abbrev IsDrying : AuditState Db → Worker × AuditState Db → Type 0
  IsDrying s (w', s') = IsDry w' s' × (s.queue ≡ [] → s'.queue ≡ [])

  receive-IsDrying :
      (got : AuditLog → Worker) (otherwise : Worker) (q : List AuditLog) (s : AuditState Db)
      → s.queue ≡ q
      → ((r : AuditLog) → has_returned (got r) ≡ false)
      → IsDrying s (receive table got otherwise q s)
  receive-IsDrying got otherwise [] s e h = (λ _. e, λ e'. e')
  receive-IsDrying got otherwise (r ∷ q) s e h = (λ b. absurd (cc (h r)), λ e'. absurd (cc))

  step_worker-IsDrying :
      (env : InsertEnv) (b : Bool) (w : Worker) (s : AuditState Db)
      → IsDry w s
      → IsDrying s (step_worker table env b w s)
  unfolding step_worker
  step_worker-IsDrying env b selecting s h =
      if_elim (IsDrying s) s.stopped
        (λ _.
          if_elim (IsDrying s) b (λ _. (λ e. absurd (cc), λ e. e))
            (λ _. receive-IsDrying inserting draining s.queue s refl (λ r. refl)))
        (λ _. receive-IsDrying inserting selecting s.queue s refl (λ r. refl))
  step_worker-IsDrying env b (inserting row) s h =
      (λ e. absurd (cc), λ e. (write_row-IsKept table env row s).0 ∙ e)
  step_worker-IsDrying env b draining s h =
      receive-IsDrying drain_inserting returned s.queue s refl (λ r. refl)
  step_worker-IsDrying env b (drain_inserting row) s h =
      (λ e. absurd (cc), λ e. (write_row-IsKept table env row s).0 ∙ e)
  step_worker-IsDrying env b returned s h = (h, λ e. e)

  abbrev pub IsDryPool : Pool table → Type 0
  IsDryPool (ws, s) = any has_returned ws ≡ true → s.queue ≡ []

  step_at-IsDryPool :
      (env : InsertEnv) (b : Bool) (i : ℕ) (ws : List Worker) (s : AuditState Db)
      → IsDryPool (ws, s)
      → let x = step_at table env b i ws s in IsDryPool x × (s.queue ≡ [] → x.1.queue ≡ [])
  unfolding step_at
  step_at-IsDryPool env b i [] s h = (h, λ e. e)
  step_at-IsDryPool env b zero (w ∷ ws) s h =
      let (w', s') = step_worker table env b w s in
      let (dry, stays) = step_worker-IsDrying env b w s (λ e. h (rw e)) in
      (
        λ e. elim (Bool-cases (has_returned w')) [
          | inl over ↦ dry over
          | inr under ↦ stays (h (ground arith))
        ],
        stays,
      )
  step_at-IsDryPool env b (suc i) (w ∷ ws) s h =
      let (ws', s') = step_at table env b i ws s in
      let (dry, stays) = step_at-IsDryPool env b i ws s (λ e. h (ground arith)) in
      (
        λ e. elim (Bool-cases (has_returned w)) [
          | inl over ↦ stays (h (rw over))
          | inr under ↦ dry (ground arith)
        ],
        stays,
      )

  pub run_waiting-IsDryPool :
      (actions : List Action) (x : Pool table)
      → IsWaiting actions
      → IsDryPool x
      → IsDryPool (run table actions x)
  unfolding run act
  run_waiting-IsDryPool [] x waiting h = h
  run_waiting-IsDryPool (insert env row ∷ rest) x waiting h = elim waiting [ ]
  run_waiting-IsDryPool (stop ∷ rest) x waiting h = elim waiting [ ]
  run_waiting-IsDryPool (work env b i ∷ rest) x waiting h =
      run_waiting-IsDryPool rest (step_at table env b i x.0 x.1) waiting
        (step_at-IsDryPool env b i x.0 x.1 h).0
