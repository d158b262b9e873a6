-- ===== src/Server/Tokens.antt =====
-- internal/server/server.go: the Manager is the proxy's TokenProvider.
pub mod Fresh
use grok_auth_proxy.Prelude.{ℕ, suc, Option, none, some, List, ◌++◌, Result, ok, err}
use grok_auth_proxy.Text.{Str}
use grok_auth_proxy.Auth.Manager.{AuthError, Event, JsonLib, Manager}
use grok_auth_proxy.Auth.Token.{TokenEnv, get_access_token, force_refresh}
use grok_auth_proxy.Proxy.Context.{World}

-- The manager, the number of calls so far, and what they have caused.
pub record Held : Type 0 where
  pub manager : Manager
  pub calls : ℕ
  pub events : List Event

-- `envs` is what each call meets, and `text` is err.Error().
module _ (json : JsonLib) (envs : ℕ → TokenEnv) (text : AuthError → Str) where
  abbrev token_result : Result AuthError Str → Result Str Str
  token_result (ok token) = ok token
  token_result (err e) = err (text e)

  abbrev refresh_result : Result AuthError (Unit {0}) → Option Str
  refresh_result (ok _) = none
  refresh_result (err e) = some (text e)

  unfoldable pub provide_token : Held → Result Str Str × Held
  provide_token h =
      let (r, m, events) = get_access_token json (envs h.calls) h.manager in
      (token_result r, record { manager = m; calls = suc h.calls; events = h.events ++ events })

  unfoldable pub provide_refresh : Held → Option Str × Held
  provide_refresh h =
      let (r, m, events) = force_refresh json (envs h.calls).refresh h.manager in
      (refresh_result r, record { manager = m; calls = suc h.calls; events = h.events ++ events })

  -- The world of the proxy with the manager in it.
  abbrev pub with_manager : World Held → World Held
  with_manager w = record w { get_access_token = provide_token; force_refresh = provide_refresh }
