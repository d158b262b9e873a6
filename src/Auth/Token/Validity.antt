-- ===== src/Auth/Token/Validity.antt =====
-- Which token a request is given.
use grok_auth_proxy.Prelude.{◌≤◌, ◌<◌, ◌≡◌, ◌⊎◌, false, List, ok, err, arith}
use grok_auth_proxy.Text.{Str}
use grok_auth_proxy.Clock.{zero_time, add}
use grok_auth_proxy.Auth.Manager.{AuthError, Event, JsonLib, Manager}
use grok_auth_proxy.Auth.Refresh.{do_refresh}
use grok_auth_proxy.Auth.Token.{TokenEnv, after_refresh, get_access_token}

-- Why the token of the manager `m` may be sent upstream.
abbrev pub IsGranted : JsonLib → TokenEnv → Manager → Str → Manager → Type 0
IsGranted json env m token m' =
    ((token ≡ m.entry.key)
      × (m' ≡ m)
      × ((m.entry.expires_at ≡ zero_time)
          ⊎ (add env.now_check m.refresh_skew ≤ m.entry.expires_at)))
    ⊎ ((do_refresh json env.refresh false m).0 ≡ ok tt)
      × (m' ≡ (do_refresh json env.refresh false m).1)
      × (token ≡ m'.entry.key)
    ⊎ (token ≡ m.entry.key)
      × (env.now_fallback < m.entry.expires_at)
      × ((e : AuthError) × ((do_refresh json env.refresh false m).0 ≡ err e))

-- A token is handed out only for one of three reasons: its expiry is unknown or at least the skew
-- away, and nothing was done; or the refresh succeeded, and it is the token of the refreshed entry;
-- or the refresh failed, and it is the old token, which has not expired by then.
pub get_access_token-IsGranted :
    (json : JsonLib) (env : TokenEnv) (m m' : Manager) (token : Str) (events : List Event)
    → get_access_token json env m ≡ (ok token, m', events)
    → IsGranted json env m token m'
unfolding get_access_token after_refresh
get_access_token-IsGranted json env m m' token events h = ground arith
