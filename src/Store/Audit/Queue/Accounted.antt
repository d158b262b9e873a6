-- ===== src/Store/Audit/Queue/Accounted.antt =====
-- internal/store/store.go: what becomes of the rows that InsertAuditLog accepts.
use grok_auth_proxy.Prelude.{
  ℕ, zero, suc, ◌+◌, ◌≤◌, ◌≡◌, refl, Bool, true, Option, none, some, List, [], ◌∷◌, ◌++◌, Result,
  ok, err, arith, length, ltb, length-append, Bool-cases, inl, inr, if_elim,
}
use grok_auth_proxy.Store.Table.{StoreError, count_if}
use grok_auth_proxy.Store.Audit.{AuditLog, AuditTable, IsReordered, complete, insert_audit_log_sync}
use grok_auth_proxy.Store.Audit.Queue.{
  audit_queue_size, Worker, selecting, draining, returned, inserting, drain_inserting, Outcome,
  accepted, written, lost, AuditState, InsertEnv, start_audit_workers, write_result, write_row,
  offer, insert_completed, insert_audit_log, receive, step_worker, step_at, Action, insert, work,
  stop, Pool, act, run, open_audit,
}

-- The rows of the history that the queue has taken, and those that are done with.
abbrev pub taken : List Outcome → List AuditLog
taken [] = []
taken (accepted r ∷ h) = r ∷ taken h
taken (_ ∷ h) = taken h

abbrev pub settled : List Outcome → List AuditLog
settled [] = []
settled (written r ∷ h) = r ∷ settled h
settled (lost r ∷ h) = r ∷ settled h
settled (_ ∷ h) = settled h

-- The row that a worker holds.
abbrev pub held : Worker → List AuditLog
held (inserting r) = r ∷ []
held (drain_inserting r) = r ∷ []
held _ = []

abbrev pub in_hand : List Worker → List AuditLog
in_hand [] = []
in_hand (w ∷ ws) = held w ++ in_hand ws

pub count_if-append :
    {A : Type 0} (p : A → Bool) (xs ys : List A)
    → count_if p (xs ++ ys) ≡ count_if p xs + count_if p ys
count_if-append p [] ys = omega arith
count_if-append p (x ∷ xs) ys = ground (arith, count_if-append p xs ys)

module _ (table : AuditTable) (p : AuditLog → Bool) where
  open table use {Db}

  -- How many of the rows are in hand, in the queue or done with, and how many the queue has taken.
  abbrev pub present : List AuditLog → AuditState Db → ℕ
  present hand s = count_if p hand + count_if p s.queue + count_if p (settled s.history)

  abbrev pub received : AuditState Db → ℕ
  received s = count_if p (taken s.history)

  write_result-present :
      (row : AuditLog) (r : Result StoreError Db) (s : AuditState Db)
      → let s' = (write_result table row r s).1 in
        (present [] s' ≡ present (row ∷ []) s) × (received s' ≡ received s) × (s'.queue ≡ s.queue)
  write_result-present row (err e) s = (omega arith, refl, refl)
  write_result-present row (ok db) s = (omega arith, refl, refl)

  -- What a step leaves: as many rows as before, at most 4096 of them in the queue.
  abbrev IsEven : List AuditLog → AuditState Db → List AuditLog → AuditState Db → Type 0
  IsEven hand s hand' s' =
      (present hand' s' + received s ≡ present hand s + received s')
      × (length s.queue ≤ audit_queue_size → length s'.queue ≤ audit_queue_size)

  write_row-IsEven :
      (env : InsertEnv) (row : AuditLog) (s : AuditState Db)
      → IsEven (row ∷ []) s [] (write_row table env row s).1
  unfolding write_row
  write_row-IsEven env row s =
      let (a, b, c) =
        write_result-present row (insert_audit_log_sync table env.random env.now row s.db) s in
      (omega (arith, a, b), λ h. rw c h)

  offer-IsEven : (row : AuditLog) (s : AuditState Db) → IsEven [] s [] (offer table row s)
  unfolding offer
  offer-IsEven row s = elim (Bool-cases (ltb (length s.queue) audit_queue_size)) [
    | inl room ↦ rw room (
      omega (arith, count_if-append p s.queue (row ∷ [])),
      λ h. ground (arith, length-append s.queue (row ∷ [])),
    )
    | inr full ↦ rw full (omega arith, λ h. h)
  ]

  insert_completed-IsEven :
      (env : InsertEnv) (row : Option AuditLog) (s : AuditState Db)
      → IsEven [] s [] (insert_completed table env row s).1
  insert_completed-IsEven env none s = (omega arith, λ h. h)
  insert_completed-IsEven env (some row) s =
      let s₁ = record s { history = accepted row ∷ s.history } in
      let (a, b) = write_row-IsEven env row s₁ in
      if_elim (λ (r : Result StoreError (Unit {0}) × AuditState Db). IsEven [] s [] r.1) s.has_queue
        (λ _. offer-IsEven row s) (λ _. (omega (arith, a), b))

  insert_audit_log-IsEven :
      (env : InsertEnv) (row : Option AuditLog) (s : AuditState Db)
      → IsEven [] s [] (insert_audit_log table env row s).1
  unfolding insert_audit_log
  insert_audit_log-IsEven env none s = (omega arith, λ h. h)
  insert_audit_log-IsEven env (some row) s =
      insert_completed-IsEven env (complete env.random env.now row) s

  receive-IsEven :
      (got : AuditLog → Worker) (otherwise : Worker) (q : List AuditLog) (s : AuditState Db)
      → ((r : AuditLog) → held (got r) ≡ r ∷ [])
      → held otherwise ≡ []
      → s.queue ≡ q
      → let (w, s') = receive table got otherwise q s in IsEven [] s (held w) s'
  receive-IsEven got otherwise [] s h h' e = rw h' (omega arith, λ b. b)
  receive-IsEven got otherwise (r ∷ q) s h h' e = rw (h r, e) (omega arith, λ b. omega arith)

  step_worker-IsEven :
      (env : InsertEnv) (b : Bool) (w : Worker) (s : AuditState Db)
      → let (w', s') = step_worker table env b w s in IsEven (held w) s (held w') s'
  unfolding step_worker
  step_worker-IsEven env b selecting s =
      if_elim (λ (r : Worker × AuditState Db). IsEven [] s (held r.0) r.1) s.stopped
        (λ _.
          if_elim (λ (r : Worker × AuditState Db). IsEven [] s (held r.0) r.1) b
            (λ _. (omega arith, λ h. h))
            (λ _. receive-IsEven inserting draining s.queue s (λ r. refl) refl refl))
        (λ _. receive-IsEven inserting selecting s.queue s (λ r. refl) refl refl)
  step_worker-IsEven env b (inserting row) s = write_row-IsEven env row s
  step_worker-IsEven env b draining s =
      receive-IsEven drain_inserting returned s.queue s (λ r. refl) refl refl
  step_worker-IsEven env b (drain_inserting row) s = write_row-IsEven env row s
  step_worker-IsEven env b returned s = (omega arith, λ h. h)

  step_at-IsEven :
      (env : InsertEnv) (b : Bool) (i : ℕ) (ws : List Worker) (s : AuditState Db)
      → let (ws', s') = step_at table env b i ws s in IsEven (in_hand ws) s (in_hand ws') s'
  unfolding step_at
  step_at-IsEven env b i [] s = (omega arith, λ h. h)
  step_at-IsEven env b zero (w ∷ ws) s =
      let (w', s') = step_worker table env b w s in
      let (even, bound) = step_worker-IsEven env b w s in
      (
        omega (
          arith,
          even,
          count_if-append p (held w) (in_hand ws),
          count_if-append p (held w') (in_hand ws),
        ),
        bound,
      )
  step_at-IsEven env b (suc i) (w ∷ ws) s =
      let (ws', s') = step_at table env b i ws s in
      let (even, bound) = step_at-IsEven env b i ws s in
      (
        omega (
          arith,
          even,
          count_if-append p (held w) (in_hand ws),
          count_if-append p (held w) (in_hand ws'),
        ),
        bound,
      )

  abbrev IsEvenPool : Pool table → Pool table → Type 0
  IsEvenPool x y = IsEven (in_hand x.0) x.1 (in_hand y.0) y.1

  act-IsEvenPool : (a : Action) (x : Pool table) → IsEvenPool x (act table a x)
  unfolding act
  act-IsEvenPool (insert env row) (ws, s) =
      let (even, bound) = insert_audit_log-IsEven env row s in (omega (arith, even), bound)
  act-IsEvenPool (work env b i) (ws, s) = step_at-IsEven env b i ws s
  act-IsEvenPool stop (ws, s) = (omega arith, λ h. h)

  pub run-IsEvenPool : (actions : List Action) (x : Pool table) → IsEvenPool x (run table actions x)
  unfolding run
  run-IsEvenPool [] x = (omega arith, λ h. h)
  run-IsEvenPool (a ∷ rest) x =
      let (even₁, bound₁) = act-IsEvenPool a x in
      let (even₂, bound₂) = run-IsEvenPool rest (act table a x) in
      (omega (arith, even₁, even₂), λ h. bound₂ (bound₁ h))

-- Whatever the requests, the workers and the stop do, and in whatever order: the queue never holds
-- more than 4096 rows, and every row that it has taken is, as often as it was taken, still in the
-- queue, in the hands of a worker, or done with: written to the database or lost to an error of it.
-- So no accepted row is forgotten and none is tried twice.
pub run-IsReordered :
    (table : AuditTable) (actions : List Action) (db : table.Db)
    → let (ws, s) = run table actions (open_audit table db) in
      (length s.queue ≤ 4096)
      × IsReordered (taken s.history) (settled s.history ++ s.queue ++ in_hand ws)
unfolding open_audit start_audit_workers
run-IsReordered table actions db =
    let (ws, s) = run table actions (open_audit table db) in
    (
      (run-IsEvenPool table (λ _. true) actions (open_audit table db)).1 (omega arith),
      λ p.
          let (even, _) = run-IsEvenPool table p actions (open_audit table db) in
          omega (
            arith,
            even,
            count_if-append p (settled s.history ++ s.queue) (in_hand ws),
            count_if-append p (settled s.history) s.queue,
          ),
    )
