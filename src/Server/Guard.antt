-- ===== src/Server/Guard.antt =====
-- The group /v1 of internal/server/server.go: what a request must have before it goes upstream.
use grok_auth_proxy.Prelude.{◌≡◌, true, Option, List, ok}
use grok_auth_proxy.Text.{Str}
use grok_auth_proxy.Store.Text.{CryptoLib}
use grok_auth_proxy.Store.Table.{ApiKey, KeyTable}
use grok_auth_proxy.Store.Keys.{validate_plaintext}
use grok_auth_proxy.Middleware.Keys.{extract_bearer}
use grok_auth_proxy.Middleware.RateLimit.{RateLib, limit}
use grok_auth_proxy.Proxy.Body.{Body}
use grok_auth_proxy.Proxy.Context.{ClientRequest, UpstreamRequest, World, Upstream}
use grok_auth_proxy.Proxy.Forward.Sending.{AtMostTwice}
use grok_auth_proxy.Proxy.Forward.Requests.{bytes_of}
use grok_auth_proxy.Server.{Service, Arrival, with_key, call_of}

module _ {L S : Type 0} (crypto : CryptoLib) (table : KeyTable) (lib : RateLib L) (world : World S)
    (u : Upstream) (origins : List Str) where
  open table use {Db}

  -- The bearer token is a key that the store validates, and the limiter lets its call pass; then two
  -- requests at most go upstream, for the client's request with its context.
  abbrev pub IsGuarded :
      Arrival → ClientRequest → Option Body → Service L Db S → List UpstreamRequest → Type 0
  IsGuarded a client body st after =
      (key : ApiKey) × ((validate_plaintext crypto table (extract_bearer client.header) a.now
          a.now_get st.keys).0
        ≡ ok key)
      × ((limit lib (call_of a.now_limit key) st.limiter).0 ≡ true)
      × AtMostTwice world u (with_key key client) (bytes_of body) st.ctx.requests after
