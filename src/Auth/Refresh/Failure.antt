-- ===== src/Auth/Refresh/Failure.antt =====
-- What a refresh leaves when it fails.
use grok_auth_proxy.Prelude.{◌≡◌, subst, Bool, List, err}
use grok_auth_proxy.Auth.Manager.{AuthError, Event, Manager, JsonLib}
use grok_auth_proxy.Auth.Refresh.{RefreshEnv, refresh}
use grok_auth_proxy.Auth.Refresh.Effects.{
  with_endpoint, OnlyRequests, Refreshed, nothing, not_done, done, refresh_cases,
}

not_done_keeps :
    (json : JsonLib) (env : RefreshEnv) (force : Bool) (m m' : Manager) (e : AuthError)
    (events : List Event)
    → Refreshed json env force m (err e, m', events)
    → (m' ≡ with_endpoint m m'.token_endpoint) × OnlyRequests events
not_done_keeps json env force m m' e events (nothing _ _ p) = cc
not_done_keeps json env force m m' e events (done tr url endpoint before after _ _ _ p) = cc
not_done_keeps json env force m m' e events (not_done e' endpoint events' quiet p) =
    let q : events' ≡ events = cc in (cc, subst OnlyRequests q quiet)

-- A refresh that fails, forced or not, leaves the manager as it was but for the cached token
-- endpoint, and has persisted, written and measured nothing.
pub refresh_failure_keeps :
    (json : JsonLib) (env : RefreshEnv) (force : Bool) (m m' : Manager) (e : AuthError)
    (events : List Event)
    → refresh json env force m ≡ (err e, m', events)
    → (m' ≡ with_endpoint m m'.token_endpoint) × OnlyRequests events
refresh_failure_keeps json env force m m' e events h =
    not_done_keeps json env force m m' e events
      (subst (Refreshed json env force m) h (refresh_cases json env force m))
