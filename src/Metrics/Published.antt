-- ===== src/Metrics/Published.antt =====
-- internal/auth/auth.go with internal/metrics/metrics.go: the gauges follow the credentials in use.
use grok_auth_proxy.Prelude.{
  ◌≡◌, refl, sym, ap, subst, ◌∙◌, Bool, true, false, not, List, [], ◌∷◌, ◌++◌, Result, ok, err,
  if◌then◌else◌, if_elim, if_elim_both, if_true,
}
use grok_auth_proxy.Prelude.Int.{ℤ, pos}
use grok_auth_proxy.Text.{is_blank}
use grok_auth_proxy.Clock.{Time, is_zero, before, add}
use grok_auth_proxy.Auth.Manager as Auth
use grok_auth_proxy.Auth.Manager.{AuthError, Event, JsonLib, Manager, publish_metrics}
use grok_auth_proxy.Auth.Refresh.{RefreshEnv, refresh, do_refresh, is_ok}
use grok_auth_proxy.Auth.Refresh.Effects.{OnlyRequests}
use grok_auth_proxy.Auth.Refresh.Failure.{refresh_failure_keeps}
use grok_auth_proxy.Auth.Token.{twice, proactive_tick}
use grok_auth_proxy.Metrics.{Metrics, gauge_of, unix, set_auth_state, inc_auth_refresh}

-- What an event of the manager does to the metrics.
unfoldable pub apply_event : Time → Event → Metrics → Metrics
apply_event now (Auth.set_auth_state ready expires_at has_refresh) x =
    set_auth_state ready expires_at has_refresh now x
apply_event now (Auth.inc_auth_refresh success) x = inc_auth_refresh success x
apply_event now _ x = x

unfoldable pub collect : Time → List Event → Metrics → Metrics
collect now [] x = x
collect now (e ∷ events) x = collect now events (apply_event now e x)

-- The gauges show the credentials that the manager holds.
abbrev pub IsPublished : Manager → Metrics → Type 0
IsPublished m x =
    (x.auth_ready ≡ gauge_of (not (is_blank m.entry.key)))
    × (x.token_has_refresh ≡ gauge_of (not (is_blank m.entry.refresh_token)))
    × (x.token_expires_at ≡ (if is_zero m.entry.expires_at then pos 0 else unix m.entry.expires_at))

collect-append :
    (now : Time) (xs ys : List Event) (x : Metrics)
    → collect now (xs ++ ys) x ≡ collect now ys (collect now xs x)
unfolding collect
collect-append now [] ys x = refl
collect-append now (e ∷ xs) ys x = collect-append now xs ys (apply_event now e x)

collect_requests :
    (now : Time) (events : List Event) (x : Metrics)
    → OnlyRequests events
    → collect now events x ≡ x
unfolding collect apply_event
collect_requests now [] x h = refl
collect_requests now (Auth.http_get url ∷ events) x h = collect_requests now events x h
collect_requests now (Auth.http_post url fields ∷ events) x h = collect_requests now events x h
collect_requests now (Auth.set_auth_state a b c ∷ events) x h = elim h [ ]
collect_requests now (Auth.inc_auth_refresh a ∷ events) x h = elim h [ ]
collect_requests now (Auth.persist a ∷ events) x h = elim h [ ]
collect_requests now (Auth.write_file a ∷ events) x h = elim h [ ]

set-IsPublished :
    (now : Time) (m : Manager) (x : Metrics)
    → IsPublished m (
        set_auth_state
          (not (is_blank m.entry.key))
          m.entry.expires_at
          (not (is_blank m.entry.refresh_token))
          now
          x)
unfolding set_auth_state
set-IsPublished now m x =
    if_elim_both
      (λ (y : Metrics) (e : ℤ).
        (y.auth_ready ≡ gauge_of (not (is_blank m.entry.key)))
        × (y.token_has_refresh ≡ gauge_of (not (is_blank m.entry.refresh_token)))
        × (y.token_expires_at ≡ e))
      (is_zero m.entry.expires_at) (λ _. (refl, refl, refl)) (λ _. (refl, refl, refl))

publish-IsPublished :
    (now : Time) (m : Manager) (x : Metrics)
    → m.has_metrics ≡ true
    → IsPublished m (collect now (publish_metrics m) x)
unfolding publish_metrics collect apply_event
publish-IsPublished now m x h =
    subst (λ events. IsPublished m (collect now events x)) (sym (if_true m.has_metrics _ _ h))
      (set-IsPublished now m x)

counted-IsPublished :
    (now : Time) (m : Manager) (success : Bool) (x : Metrics)
    → IsPublished m x
    → IsPublished m (inc_auth_refresh success x)
unfolding inc_auth_refresh
counted-IsPublished now m success x h = if_elim (IsPublished m) success (λ _. h) (λ _. h)

-- The end of a refresh, by its result.
refreshed-IsPublished :
    (now : Time) (r : Result AuthError (Unit {0})) (m' : Manager) (events : List Event)
    (x : Metrics)
    → m'.has_metrics ≡ true
    → ((e : AuthError) → r ≡ err e → IsPublished m' (collect now events x))
    → IsPublished m' (
        collect now
          (events
            ++ (if m'.has_metrics then Auth.inc_auth_refresh (is_ok r) ∷ [] else [])
            ++ (if is_ok r then publish_metrics m' else []))
          x)
unfolding collect apply_event
refreshed-IsPublished now (ok _) m' events x h failed =
    let counted = if m'.has_metrics then Auth.inc_auth_refresh true ∷ [] else [] in
    subst (IsPublished m') (sym (collect-append now (events ++ counted) (publish_metrics m') x))
      (publish-IsPublished now m' (collect now (events ++ counted) x) h)
refreshed-IsPublished now (err e) m' events x h failed =
    let counted : List Event = if m'.has_metrics then Auth.inc_auth_refresh false ∷ [] else [] in
    let one : counted ≡ Auth.inc_auth_refresh false ∷ [] = if_true m'.has_metrics _ _ h in
    let y = collect now events x in
    let step : collect now (events ++ counted ++ []) x ≡ collect now counted y =
      collect-append now (events ++ counted) [] x ∙ collect-append now events counted x in
    subst (IsPublished m') (sym step) (
      subst (λ es. IsPublished m' (collect now es y)) (sym one)
        (counted-IsPublished now m' false y (failed e refl)))

do_refresh-IsPublished :
    (json : JsonLib) (env : RefreshEnv) (force : Bool) (now : Time) (m : Manager) (x : Metrics)
    → (do_refresh json env force m).1.has_metrics ≡ true
    → IsPublished m x
    → let (_, m', events) = do_refresh json env force m in IsPublished m' (collect now events x)
unfolding do_refresh
do_refresh-IsPublished json env force now m x h published =
    let (r, m', events) = refresh json env force m in
    refreshed-IsPublished now r m' events x h (λ e failed.
      let whole : refresh json env force m ≡ (err e, m', events) =
        ap (λ r'. (r', m', events)) failed in
      let (kept, quiet) = refresh_failure_keeps json env force m m' e events whole in
      subst (IsPublished m') (sym (collect_requests now events x quiet))
        (subst (λ m''. IsPublished m'' x) (sym kept) published))

-- After each tick of the periodic refresh, whatever the provider and the file system do in it, the
-- gauges show the credentials that the manager then holds: whether there is an access token, whether
-- there is a refresh token, and when the token expires.
pub proactive_tick-IsPublished :
    (json : JsonLib) (env : RefreshEnv) (now : Time) (m : Manager) (x : Metrics)
    → m.has_metrics ≡ true
    → (proactive_tick json now env m).0.has_metrics ≡ true
    → let (m', events) = proactive_tick json now env m in IsPublished m' (collect now events x)
unfolding proactive_tick
proactive_tick-IsPublished json env now m x h =
    let published = publish_metrics m in
    let here = publish-IsPublished now m x h in
    let P : Manager × List Event → Type 0 =
      λ r. r.0.has_metrics ≡ true → IsPublished r.0 (collect now r.1 x) in
    if_elim P (is_zero m.entry.expires_at) (λ _ _. here)
      (λ _.
        if_elim P (before (add now (twice m.refresh_skew)) m.entry.expires_at) (λ _ _. here)
          (λ _ h'.
            let (_, m', events) = do_refresh json env false m in
            subst (IsPublished m') (sym (collect-append now published events x))
              (do_refresh-IsPublished json env false now m (collect now published x) h' here)))
