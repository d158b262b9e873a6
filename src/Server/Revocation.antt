-- ===== src/Server/Revocation.antt =====
-- internal/server/server.go: a key that an administrator revokes, at the group /v1.
mod Tests
use grok_auth_proxy.Prelude.{◌≡◌, ◌⊎◌, false, Option, List}
use grok_auth_proxy.Text.{Str, ◌==◌}
use grok_auth_proxy.Store.Table.{ApiKey}
use grok_auth_proxy.Proxy.Body.{Body}
use grok_auth_proxy.Proxy.Context.{ClientRequest, UpstreamRequest, World, Upstream}
use grok_auth_proxy.Proxy.Forward.Sending.{AtMostTwice}
use grok_auth_proxy.Proxy.Forward.Requests.{bytes_of}
use grok_auth_proxy.Server.{Service, with_id, with_key}

-- Nothing has been sent, or it was for another key than the one with the id.
abbrev pub IsRefused :
    {L Db S : Type 0}
    → World S
    → Upstream
    → (id : Str) → ClientRequest
    → Option Body
    → Service L Db S
    → List UpstreamRequest
    → Type 0
IsRefused world u id client body st after =
    (after ≡ st.ctx.requests)
    ⊎ ((rid : Str) × (key : ApiKey) × ((key.id == id) ≡ false)
        × AtMostTwice world u (with_key key (with_id rid client)) (bytes_of body) st.ctx.requests
            after)
