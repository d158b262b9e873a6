-- ===== src/Auth/Refresh/Waiting.antt =====
-- Callers that wait for one another: refreshMu lets one refresh run at a time, so concurrent calls of
-- Refresh are a sequence of refreshes, each of the manager that the one before it left.
use grok_auth_proxy.Prelude.{◌≡◌, true, false, List, [], ◌∷◌, ◌++◌, Result, ok}
use grok_auth_proxy.Auth.Manager.{AuthError, Event, Manager, JsonLib}
use grok_auth_proxy.Auth.Refresh.{RefreshEnv, is_fresh, refresh}

-- The results of the callers, the manager that the last one leaves, and all events.
unfoldable pub refresh_all :
    JsonLib → List RefreshEnv → Manager → List (Result AuthError (Unit {0})) × Manager × List Event
refresh_all json [] m = ([], m, [])
refresh_all json (env ∷ envs) m =
    let (r, m', events) = refresh json env false m in
    let (rs, m'', more) = refresh_all json envs m' in (r ∷ rs, m'', events ++ more)

abbrev pub all_ok : List RefreshEnv → List (Result AuthError (Unit {0}))
all_ok [] = []
all_ok (env ∷ envs) = ok tt ∷ all_ok envs

-- Every caller finds the token fresh when it gets the lock.
abbrev pub AllFresh : Manager → List RefreshEnv → Type 0
AllFresh m [] = Unit
AllFresh m (env ∷ envs) = (is_fresh env.now_check m ≡ true) × AllFresh m envs
