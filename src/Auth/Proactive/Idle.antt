-- ===== src/Auth/Proactive/Idle.antt =====
-- internal/auth/auth.go: the ticks that come before the skew.
use grok_auth_proxy.Prelude.{
  ◌≡◌, refl, ◌∙◌, true, false, not, ◌&&◌, List, [], ◌∷◌, ◌++◌, ok, if◌then◌else◌, if_elim, if_true,
}
use grok_auth_proxy.Clock.{Time, is_zero, before, add}
use grok_auth_proxy.Auth.Manager.{
  Event, set_auth_state, inc_auth_refresh, http_get, http_post, persist, write_file, JsonLib,
  Manager, publish_metrics,
}
use grok_auth_proxy.Auth.Refresh.{RefreshEnv, is_fresh, refresh, do_refresh}
use grok_auth_proxy.Auth.Token.{twice, proactive_tick}
use grok_auth_proxy.Auth.Proactive.{Wake, tick, stopped, run_ticks, start_proactive_refresh}

-- Nothing but the metrics is touched, and no refresh is counted as an error.
abbrev pub OnlyMeasured : List Event → Type 0
OnlyMeasured [] = Unit
OnlyMeasured (set_auth_state a b c ∷ events) = OnlyMeasured events
OnlyMeasured (inc_auth_refresh success ∷ events) = (success ≡ true) × OnlyMeasured events
OnlyMeasured (_ ∷ events) = ⊥

-- At each tick, the token outlives the skew.
abbrev pub AllFresh : Manager → List Wake → Type 0
AllFresh m [] = Unit
AllFresh m (stopped ∷ wakes) = Unit
AllFresh m (tick now env ∷ wakes) = (is_fresh env.now_check m ≡ true) × AllFresh m wakes

OnlyMeasured-append :
    (xs ys : List Event) → OnlyMeasured xs → OnlyMeasured ys → OnlyMeasured (xs ++ ys)
OnlyMeasured-append [] ys h k = k
OnlyMeasured-append (set_auth_state a b c ∷ xs) ys h k = OnlyMeasured-append xs ys h k
OnlyMeasured-append (inc_auth_refresh a ∷ xs) ys (s, h) k = (s, OnlyMeasured-append xs ys h k)
OnlyMeasured-append (http_get _ ∷ xs) ys h k = elim h [ ]
OnlyMeasured-append (http_post _ _ ∷ xs) ys h k = elim h [ ]
OnlyMeasured-append (persist _ ∷ xs) ys h k = elim h [ ]
OnlyMeasured-append (write_file _ ∷ xs) ys h k = elim h [ ]

publish-OnlyMeasured : (m : Manager) → OnlyMeasured (publish_metrics m)
unfolding publish_metrics
publish-OnlyMeasured m = if_elim OnlyMeasured m.has_metrics (λ _. tt) (λ _. tt)

refresh_fresh :
    (json : JsonLib) (env : RefreshEnv) (m : Manager)
    → is_fresh env.now_check m ≡ true
    → refresh json env false m ≡ (ok tt, m, [])
unfolding refresh
refresh_fresh json env m h = if_true (not false && is_fresh env.now_check m) _ _ h

abbrev IsIdle : Manager → Manager × List Event → Type 0
IsIdle m (m', events) = (m' ≡ m) × OnlyMeasured events

do_refresh_fresh :
    (json : JsonLib) (env : RefreshEnv) (m : Manager)
    → is_fresh env.now_check m ≡ true
    → let (_, m', events) = do_refresh json env false m in IsIdle m (m', events)
unfolding do_refresh
do_refresh_fresh json env m h =
    let counted = if m.has_metrics then inc_auth_refresh true ∷ [] else [] in
    let measured : OnlyMeasured counted =
      if_elim OnlyMeasured m.has_metrics (λ _. (refl, tt)) (λ _. tt) in
    rw (refresh_fresh json env m h)
      (refl, OnlyMeasured-append counted (publish_metrics m) measured (publish-OnlyMeasured m))

tick_fresh :
    (json : JsonLib) (now : Time) (env : RefreshEnv) (m : Manager)
    → is_fresh env.now_check m ≡ true
    → IsIdle m (proactive_tick json now env m)
unfolding proactive_tick
tick_fresh json now env m h =
    let published = publish-OnlyMeasured m in
    let (_, m', events) = do_refresh json env false m in
    let (same, measured) = do_refresh_fresh json env m h in
    if_elim (IsIdle m) (is_zero m.entry.expires_at) (λ _. (refl, published))
      (λ _.
        if_elim (IsIdle m) (before (add now (twice m.refresh_skew)) m.entry.expires_at)
          (λ _. (refl, published))
          (λ _. (same, OnlyMeasured-append (publish_metrics m) events published measured)))

run_ticks_fresh :
    (json : JsonLib) (wakes : List Wake) (m m' : Manager) (events : List Event)
    → AllFresh m wakes
    → IsIdle m (m', events)
    → IsIdle m (run_ticks json wakes (m', events))
unfolding run_ticks
run_ticks_fresh json [] m m' events fresh idle = idle
run_ticks_fresh json (stopped ∷ wakes) m m' events fresh idle = idle
run_ticks_fresh json (tick now env ∷ wakes) m m' events (here, fresh) (same, measured) =
    let (m'', more) = proactive_tick json now env m' in
    let here' : is_fresh env.now_check m' ≡ true = rw same here in
    let (same', measured') = tick_fresh json now env m' here' in
    run_ticks_fresh json wakes m m'' (events ++ more) fresh
      (same' ∙ same, OnlyMeasured-append events more measured measured')

-- While the token outlives the skew, the periodic refresh, however often it ticks, and within twice the
-- skew as well, asks the provider for nothing, stores and writes nothing and leaves the credentials
-- as they are; the refreshes that it counts then are all counted as successes.
pub start_proactive_refresh-OnlyMeasured :
    (json : JsonLib) (now : Time) (env : RefreshEnv) (wakes : List Wake) (m : Manager)
    → AllFresh m (tick now env ∷ wakes)
    → let (m', events) = start_proactive_refresh json now env wakes m in
      (m' ≡ m) × OnlyMeasured events
unfolding start_proactive_refresh
start_proactive_refresh-OnlyMeasured json now env wakes m fresh =
    run_ticks_fresh json (tick now env ∷ wakes) m m [] fresh (refl, tt)
