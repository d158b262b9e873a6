-- ===== src/Auth/Lifetime.antt =====
-- internal/auth/auth.go: the manager from NewManager on, through whatever is asked of it.
-- Each operation runs to its end before the next one; Auth/Refresh/Stale has a reload that comes
-- during a refresh.
use grok_auth_proxy.Prelude.{
  ◌≡◌, refl, inl, inr, Bool, false, true, not, Option, none, some, List, [], ◌∷◌, Result, ok, err,
  is_empty, if_elim,
}
use grok_auth_proxy.Text.{Str, ◌==◌}
use grok_auth_proxy.Clock.{Time, is_zero, before, add}
use grok_auth_proxy.Auth.Entry.{FileData}
use grok_auth_proxy.Auth.Entry.Laws.{IsMap}
use grok_auth_proxy.Auth.Manager.{
  AuthError, Event, JsonLib, Manager, Options, load_bytes, reload, fresh, materialise, finish,
  new_manager,
}
use grok_auth_proxy.Auth.Manager.Loading.{load_bytes_atomic}
use grok_auth_proxy.Auth.Refresh.{RefreshEnv, do_refresh, write_settled}
use grok_auth_proxy.Auth.Token.{TokenEnv, get_access_token, force_refresh, twice, proactive_tick}
use grok_auth_proxy.Auth.Consistency.{
  IsConsistent, load_bytes-IsConsistent, refresh-IsConsistent, get_access_token-IsConsistent,
}

-- An operation: Reload, with what os.ReadFile returns; GetAccessToken; ForceRefresh; a tick of the
-- periodic refresh; and the timer that ends the write of the file.
pub data Op : Type 0 where
  reload_file : Option Str → Op
  ask : TokenEnv → Op
  force : RefreshEnv → Op
  tick : Time → RefreshEnv → Op
  settle_write : Op

module _ (json : JsonLib) where
  -- The manager that an operation leaves.
  abbrev pub run_op : Op → Manager → Manager
  run_op (reload_file file) m = (reload json file m).1
  run_op (ask env) m = (get_access_token json env m).1
  run_op (force env) m = (force_refresh json env m).1
  run_op (tick now env) m = (proactive_tick json now env m).0
  run_op settle_write m = write_settled m

  abbrev pub run_ops : List Op → Manager → Manager
  run_ops [] m = m
  run_ops (op ∷ ops) m = run_ops ops (run_op op m)

  module _ (maps : (raw : Str) (fd : FileData) → json.file_data raw ≡ some fd → IsMap fd) where
    loaded-IsConsistent :
        (raw : Str) (m : Manager) → IsConsistent m → IsConsistent (load_bytes json raw m).1
    loaded-IsConsistent raw m c = elim (load_bytes_atomic json raw m) [
      | inl (e, failed) ↦ rw failed c
      | inr (m', done, _) ↦ rw done (load_bytes-IsConsistent json raw m m' _ (maps raw) done)
    ]

    reload-IsConsistent :
        (file : Option Str) (m : Manager) → IsConsistent m → IsConsistent (reload json file m).1
    unfolding reload
    reload-IsConsistent none m c = c
    reload-IsConsistent (some raw) m c = loaded-IsConsistent raw m c

    tick-IsConsistent :
        (now : Time) (env : RefreshEnv) (m : Manager)
        → IsConsistent m
        → IsConsistent (proactive_tick json now env m).0
    unfolding proactive_tick do_refresh
    tick-IsConsistent now env m c =
        let P : Manager × List Event → Type 0 = λ r. IsConsistent r.0 in
        if_elim P (is_zero m.entry.expires_at) (λ _. c)
          (λ _.
            if_elim P (before (add now (twice m.refresh_skew)) m.entry.expires_at) (λ _. c)
              (λ _. refresh-IsConsistent json env false m c))

    run_op-IsConsistent : (op : Op) (m : Manager) → IsConsistent m → IsConsistent (run_op op m)
    unfolding force_refresh do_refresh write_settled
    run_op-IsConsistent (reload_file file) m c = reload-IsConsistent file m c
    run_op-IsConsistent (ask env) m c = get_access_token-IsConsistent json env m c
    run_op-IsConsistent (force env) m c = refresh-IsConsistent json env true m c
    run_op-IsConsistent (tick now env) m c = tick-IsConsistent now env m c
    run_op-IsConsistent settle_write m c = c

    ops-IsConsistent : (ops : List Op) (m : Manager) → IsConsistent m → IsConsistent (run_ops ops m)
    ops-IsConsistent [] m c = c
    ops-IsConsistent (op ∷ ops) m c =
        ops-IsConsistent ops (run_op op m) (run_op-IsConsistent op m c)

    finish-IsConsistent :
        (r : Result AuthError (Unit {0}) × Manager × List Event) (write : Manager → List Event)
        (m : Manager) (events : List Event)
        → (r.0 ≡ ok tt → IsConsistent r.1)
        → finish r write ≡ (ok m, events)
        → IsConsistent m
    unfolding finish
    finish-IsConsistent (err e, m', events') write m events c h = absurd (cc)
    finish-IsConsistent (ok tt, m', events') write m events c h =
        let same : m' ≡ m = cc in rw (← same) (c refl)

    start-IsConsistent :
        (raw : Str) (m : Manager)
        → (load_bytes json raw m).0 ≡ ok tt
        → IsConsistent (load_bytes json raw m).1
    start-IsConsistent raw m h = elim (load_bytes_atomic json raw m) [
      | inl (e, failed) ↦ absurd (cc (rw failed at h))
      | inr (m', done, _) ↦ rw done (load_bytes-IsConsistent json raw m m' _ (maps raw) done)
    ]

    started-IsConsistent :
        (file : Option Str) (m : Manager)
        → (reload json file m).0 ≡ ok tt
        → IsConsistent (reload json file m).1
    unfolding reload
    started-IsConsistent none m h = absurd (cc)
    started-IsConsistent (some raw) m h = start-IsConsistent raw m h

    new_manager-IsConsistent :
        (opts : Options) (writable : Bool) (file : Option Str) (m : Manager) (events : List Event)
        → new_manager json opts writable file ≡ (ok m, events)
        → IsConsistent m
    unfolding new_manager
    new_manager-IsConsistent opts writable file m events =
        let P : Result AuthError Manager × List Event → Type 0 =
          λ r. r ≡ (ok m, events) → IsConsistent m in
        let m₀ = fresh opts writable in
        if_elim P (opts.path == []) (λ _ h. absurd (cc))
          (λ _.
            if_elim P (not (is_empty opts.initial_data))
              (λ _.
                finish-IsConsistent (load_bytes json opts.initial_data m₀) materialise m events
                  (start-IsConsistent opts.initial_data m₀))
              (λ _.
                finish-IsConsistent (reload json file m₀) (λ _. []) m events
                  (started-IsConsistent file m₀)))

-- Decoding gives maps that have each name once. However the manager was made, and whatever is asked of
-- it afterwards, with whatever answers of the provider and the file system, and in whatever order:
-- reloads that succeed or fail, requests for a token, forced refreshes, ticks of the periodic
-- refresh, and the end of a write. The entry in use is then the one that the map of all entries
-- holds under the name in use.
pub run_ops-IsConsistent :
    (json : JsonLib) (opts : Options) (writable : Bool) (file : Option Str) (m : Manager)
    (events : List Event) (ops : List Op)
    → ((raw : Str) (fd : FileData) → json.file_data raw ≡ some fd → IsMap fd)
    → new_manager json opts writable file ≡ (ok m, events)
    → IsConsistent (run_ops json ops m)
run_ops-IsConsistent json opts writable file m events ops maps made =
    ops-IsConsistent json maps ops m
      (new_manager-IsConsistent json maps opts writable file m events made)
