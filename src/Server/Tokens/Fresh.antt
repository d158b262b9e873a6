-- ===== src/Server/Tokens/Fresh.antt =====
-- Handler of internal/proxy/proxy.go with the Manager of internal/auth/auth.go: which tokens go upstream.
use grok_auth_proxy.Prelude.{ℕ, ◌≡◌}
use grok_auth_proxy.Text.{Str}
use grok_auth_proxy.Auth.Manager.{AuthError, JsonLib, Manager}
use grok_auth_proxy.Auth.Token.{TokenEnv}
use grok_auth_proxy.Auth.Token.Validity.{IsGranted}
use grok_auth_proxy.Proxy.Body.{Body}
use grok_auth_proxy.Proxy.Context.{ClientRequest, UpstreamRequest, World, Upstream}
use grok_auth_proxy.Proxy.Forward.{upstream_request}
use grok_auth_proxy.Server.Tokens.{Held, with_manager}

module _ (json : JsonLib) (envs : ℕ → TokenEnv) (text : AuthError → Str) (w : World Held) where
  abbrev pub world : World Held
  world = with_manager json envs text w

  -- A token that the manager gives in some state of it.
  abbrev pub IsFresh : Str → Type 0
  IsFresh token = (h : Held) × (m : Manager) × IsGranted json (envs h.calls) h.manager token m

  module _ (u : Upstream) (client : ClientRequest) (body : Str) where
    -- The request is the client's, with such a token.
    abbrev pub Carries : UpstreamRequest → Type 0
    Carries req = (token : Str) × IsFresh token × (req ≡ upstream_request world u client token body)
