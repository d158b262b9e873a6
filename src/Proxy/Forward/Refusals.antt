-- ===== src/Proxy/Forward/Refusals.antt =====
-- Handler of internal/proxy/proxy.go: bodies that are not forwarded.
use grok_auth_proxy.Prelude.{ℕ, ◌≡◌, Option, some}
use grok_auth_proxy.Prelude.Int.{pos}
use grok_auth_proxy.Text.{Str}
use grok_auth_proxy.Proxy.Body.{Body, request_limit}
use grok_auth_proxy.Proxy.Context.{ClientRequest, Part, write_json, World, Upstream, Ctx}
use grok_auth_proxy.Proxy.Forward.{Outcome, forward_again}

module _ {S : Type 0} (world : World S) (u : Upstream) (client : ClientRequest) where
  abbrev limit : ℕ
  limit = request_limit (pos u.max_request)

  -- The world and the requests are as before, and the client has one error object.
  abbrev pub Refused : (status : ℕ) → Part → Ctx S → Ctx S → Type 0
  Refused status part c c' =
      (c'.world ≡ c.world)
      × (c'.requests ≡ c.requests)
      × (c'.writer ≡ write_json status part c.writer)

  abbrev again : Str → Option (Ctx S → Outcome × Ctx S)
  again body = some (forward_again world u client body)
