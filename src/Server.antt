-- ===== src/Server.antt =====
-- internal/server/server.go: the middleware and the handler that a request to the group /v1 runs
-- through, in the order of New. Recovery, the access log and the metrics only watch.
pub mod Tokens
pub mod Guard
pub mod Routes
pub mod Console
pub mod Revocation
pub mod Samples
mod Tests
use grok_auth_proxy.Prelude.{ℕ, Bool, true, false, Option, some, List, if◌then◌else◌}
use grok_auth_proxy.Text.{Str, codes}
use grok_auth_proxy.Clock.{Time}
use grok_auth_proxy.Store.Text.{CryptoLib}
use grok_auth_proxy.Store.Table.{ApiKey, KeyTable}
use grok_auth_proxy.Store.Keys.{KeyStore, validate_plaintext}
use grok_auth_proxy.Middleware.Keys.{Verdict, passes, aborts, api_key_auth, request_id}
use grok_auth_proxy.Middleware.Cors.{cors}
use grok_auth_proxy.Middleware.RateLimit.{RateLib, RateLimiter, Call, limit}
use grok_auth_proxy.Proxy.Body.{Body}
use grok_auth_proxy.Proxy.Context.{
  ClientRequest, Part, error_object, write_json, World, Upstream, Ctx,
}
use grok_auth_proxy.Proxy.Forward.{handler}

-- What the parts keep between requests, and the state of the request.
pub record Service (L Db S : Type 0) : Type 0 where
  pub limiter : RateLimiter L
  pub keys : KeyStore Db
  pub ctx : Ctx S

-- The clock at the validation, at its look into the cache and at the limiter, and a fresh request id.
pub record Arrival : Type 0 where
  pub now : Time
  pub now_get : Time
  pub now_limit : Time
  pub new_id : Str

-- The request with what the middleware has put into its context.
abbrev pub with_id : Str → ClientRequest → ClientRequest
with_id id client = record client { request_id = id }

abbrev pub with_key : ApiKey → ClientRequest → ClientRequest
with_key key client = record client { api_key = some (key.id, key.name, key.key_prefix) }

abbrev pub call_of : Time → ApiKey → Call
call_of now key = record { at = now; id = key.id; custom_rps = key.rate_limit_rps }

module _ {L S : Type 0} (crypto : CryptoLib) (table : KeyTable) (lib : RateLib L) (world : World S)
    (u : Upstream) (origins : List Str) where
  open table use {Db}

  -- An answer of the middleware.
  abbrev answer : (status : ℕ) → Part → Service L Db S → Service L Db S
  answer status part st = record st {
    ctx = record st.ctx { writer = write_json status part st.ctx.writer };
  }

  -- Behind the rate limiter.
  unfoldable pub on_limit :
      ClientRequest → Option Body → Bool × RateLimiter L → Service L Db S → Service L Db S
  on_limit client body (true, limiter) st = record st {
    limiter = limiter;
    ctx = handler world u client body st.ctx;
  }
  on_limit client body (false, limiter) st =
      answer 429 (error_object (codes "rate limit exceeded") (codes "rate_limit_error"))
        (record st { limiter = limiter })

  -- Behind the check of the API key.
  unfoldable pub on_key :
      Arrival
      → ClientRequest
      → Option Body
      → Verdict ApiKey × KeyStore Db
      → Service L Db S
      → Service L Db S
  on_key a client body (aborts status message, keys) st =
      answer status (error_object message (codes "invalid_request_error"))
        (record st { keys = keys })
  on_key a client body (passes key, keys) st =
      on_limit (with_key key client) body (limit lib (call_of a.now_limit key) st.limiter)
        (record st { keys = keys })

  -- The group /v1.
  unfoldable pub api_group : Arrival → ClientRequest → Option Body → Service L Db S → Service L Db S
  api_group a client body st =
      on_key a client body
        (api_key_auth (λ raw. validate_plaintext crypto table raw a.now a.now_get) client.header
          st.keys)
        st

  -- RequestID and CORS, and then the group, unless CORS answers with 204.
  unfoldable pub serve : Arrival → ClientRequest → Option Body → Service L Db S → Service L Db S
  serve a client body st =
      let (id, identified) = request_id a.new_id client.header st.ctx.writer.header in
      let (shared, ends) = cors origins client.method client.header identified in
      let w = record st.ctx.writer { header = shared } in
      if ends
      then record st { ctx = record st.ctx { writer = record w { status = 204; written = true } } }
      else api_group a (with_id id client) body (record st { ctx = record st.ctx { writer = w } })
