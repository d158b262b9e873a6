-- ===== src/Auth/Token/Lockout.antt =====
-- A token response whose access token is only white space.
use grok_auth_proxy.Prelude.{◌≡◌, inl, inr, true, List, [], ok, err}
use grok_auth_proxy.Text.{is_blank}
use grok_auth_proxy.Auth.Manager.{no_access_token, Event, JsonLib, Manager, TokenResponse}
use grok_auth_proxy.Auth.Refresh.{RefreshEnv, read_token, new_entry, refresh}
use grok_auth_proxy.Auth.Refresh.Install.{IsInstalled, refresh_installs}
use grok_auth_proxy.Auth.Token.{TokenEnv, get_access_token}

blank_key :
    (env : RefreshEnv) (tr : TokenResponse) (m m' : Manager) (events : List Event)
    → IsInstalled env tr m m' events
    → is_blank tr.access_token ≡ true
    → is_blank m'.entry.key ≡ true
unfolding new_entry
blank_key env tr m m' events i h = rw (i.entry) h

-- A forced refresh accepts an access token of white space, since it compares with "" only, and from
-- then on every request for a token is refused, with no further refresh.
pub blank_token_locks_out :
    (json : JsonLib) (env : RefreshEnv) (m m' : Manager) (events : List Event) (tr : TokenResponse)
    (later : TokenEnv)
    → refresh json env true m ≡ (ok tt, m', events)
    → read_token json env.token ≡ ok tr
    → is_blank tr.access_token ≡ true
    → get_access_token json later m' ≡ (err no_access_token, m', [])
unfolding get_access_token
blank_token_locks_out json env m m' events tr later h a blank =
    elim (refresh_installs json env true m m' events h) [
      | inl (forced, _, _, _) ↦ cc
      | inr (tr', a', i) ↦
          let same : tr' ≡ tr = cc in rw (blank_key env tr' m m' events i (rw same blank))
    ]
