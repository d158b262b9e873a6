-- ===== src/Store/Audit/Queue/Closed.antt =====
-- internal/store/store.go: what Close leaves, once the workers have returned.
use grok_auth_proxy.Prelude.{
  ◌≡◌, ◌≢◌, refl, sym, ap, subst, true, List, [], ◌∷◌, ◌++◌, any, arith, length,
}
use grok_auth_proxy.Store.Audit.{AuditTable, IsReordered}
use grok_auth_proxy.Store.Audit.Queue.{
  Worker, selecting, draining, returned, inserting, drain_inserting, start_audit_workers, Action,
  stop, Pool, act, run, open_audit,
}
use grok_auth_proxy.Store.Audit.Queue.Accounted.{
  taken, settled, in_hand, count_if-append, run-IsReordered,
}
use grok_auth_proxy.Store.Audit.Queue.Drained.{has_returned, run_open-length}
use grok_auth_proxy.Store.Audit.Queue.Dry.{
  all_returned, IsWaiting, IsDryPool, run_waiting-IsDryPool,
}
use grok_auth_proxy.Store.Audit.Queue.Early.{IsRunning, run_running-IsEarly, early_returned}
use grok_auth_proxy.Store.Audit.Queue.Stored.{lost_rows, settled-split, AllUsable, run-IsBacked}

in_hand_returned : (ws : List Worker) → all_returned ws ≡ true → in_hand ws ≡ []
in_hand_returned [] h = refl
in_hand_returned (returned ∷ ws) h = in_hand_returned ws h
in_hand_returned (draining ∷ ws) h = absurd (cc)
in_hand_returned (selecting ∷ ws) h = absurd (cc)
in_hand_returned (inserting r ∷ ws) h = absurd (cc)
in_hand_returned (drain_inserting r ∷ ws) h = absurd (cc)

any_returned : (ws : List Worker) → ws ≢ [] → all_returned ws ≡ true → any has_returned ws ≡ true
any_returned [] some_worker h = absurd (some_worker refl)
any_returned (w ∷ ws) some_worker h = ground arith

run-append :
    (table : AuditTable) (xs ys : List Action) (x : Pool table)
    → run table (xs ++ ys) x ≡ run table ys (run table xs x)
unfolding run
run-append table [] ys x = refl
run-append table (a ∷ xs) ys x = run-append table xs ys (act table a x)

run_closed-IsDryPool :
    (table : AuditTable) (before drain : List Action) (db : table.Db)
    → IsRunning before
    → IsWaiting drain
    → IsDryPool table (run table (before ++ stop ∷ drain) (open_audit table db))
unfolding open_audit start_audit_workers act run
run_closed-IsDryPool table before drain db running waiting =
    let x₀ = open_audit table db in
    let (early, _) = run_running-IsEarly table before x₀ running (refl, refl) in
    let x = run table before x₀ in
    let dry =
      run_waiting-IsDryPool table drain (act table stop x) waiting
        (λ h. absurd (cc (early_returned x.0 early))) in
    subst (IsDryPool table) (sym (run-append table before (stop ∷ drain) x₀)) dry

drained-IsReordered :
    (table : AuditTable) (before drain : List Action) (db : table.Db)
    → IsRunning before
    → IsWaiting drain
    → let (ws, s) = run table (before ++ stop ∷ drain) (open_audit table db) in
      all_returned ws ≡ true → (s.queue ≡ []) × IsReordered (taken s.history) (settled s.history)
drained-IsReordered table before drain db running waiting over =
    let actions = before ++ stop ∷ drain in
    let (ws, s) = run table actions (open_audit table db) in
    let count = run_open-length table actions db in
    let empty =
      run_closed-IsDryPool table before drain db running waiting
        (any_returned ws (λ e. absurd (omega (arith, count, ap (λ l. length l) e))) over) in
    let (_, kept) = run-IsReordered table actions db in
    let done = settled s.history in
    (
      empty,
      λ p.
          let k = rw (empty, in_hand_returned ws over) at kept p in
          omega (arith, k, count_if-append p (done ++ []) [], count_if-append p done []),
    )

-- Requests insert rows while the workers run; then Close stops the workers, no more rows come in, and
-- every worker returns. Where rand.Read never answers with no bytes and the clock is past the zero
-- time: the queue is then empty, and the database holds the rows that it held when the store was
-- opened and those that the queue has taken, each exactly as often, but for those whose insert
-- failed. If no insert fails, that is every accepted row.
pub closed-IsReordered :
    (table : AuditTable) (before drain : List Action) (db : table.Db)
    → IsRunning before
    → IsWaiting drain
    → AllUsable (before ++ stop ∷ drain)
    → let (ws, s) = run table (before ++ stop ∷ drain) (open_audit table db) in
      all_returned ws ≡ true
      → (s.queue ≡ [])
        × IsReordered (table.rows s.db ++ lost_rows s.history) (table.rows db ++ taken s.history)
closed-IsReordered table before drain db running waiting usable over =
    let actions = before ++ stop ∷ drain in
    let (ws, s) = run table actions (open_audit table db) in
    let (empty, kept) = drained-IsReordered table before drain db running waiting over in
    let backed = run-IsBacked table actions db usable in
    (
      empty,
      λ p. omega (
        arith,
        kept p,
        backed p,
        settled-split p s.history,
        count_if-append p (table.rows s.db) (lost_rows s.history),
        count_if-append p (table.rows db) (taken s.history),
      ),
    )
