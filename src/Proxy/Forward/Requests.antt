-- ===== src/Proxy/Forward/Requests.antt =====
-- Handler of internal/proxy/proxy.go: the requests that it sends to the upstream.
use grok_auth_proxy.Prelude.{◌≤◌, ◌≡◌, refl, Bool, false, Option, none, some, [], arith, length}
use grok_auth_proxy.Prelude.Int.{pos}
use grok_auth_proxy.Text.{Str}
use grok_auth_proxy.Proxy.Body.{Body, read_limited, request_limit}
use grok_auth_proxy.Proxy.Body.Bounds.{
  read_limited-IsRead, read_limited_within, IsRead, whole, longer, failed,
}
use grok_auth_proxy.Proxy.Context.{ClientRequest, World, Upstream, Ctx}
use grok_auth_proxy.Proxy.Forward.{
  Outcome, returned, waiting, forward_body, forward_again, forward, fall_back, handler,
}
use grok_auth_proxy.Proxy.Forward.Sending.{
  Once, unsent, AtMostTwice, record_audit-requests, send_once, send_twice,
}

abbrev pub bytes_of : Option Body → Str
bytes_of none = []
bytes_of (some r) = r.bytes

module _ {S : Type 0} (world : World S) (u : Upstream) (client : ClientRequest) where
  forward_body_once :
      (read : Option (Str × Bool)) (c : Ctx S)
      → (body : Str) → read ≡ some (body, false)
      → Once world u client body c.requests
          (forward_body world u client (λ _. none) read c).1.requests
  unfolding forward_body
  forward_body_once read c body e = rw e (
      send_once world u client (world.now c.world) body (world.get_access_token c.world) c c.world
        refl)

  forward_again-Once :
      (body : Str) (c : Ctx S)
      → length body ≤ request_limit (pos u.max_request)
      → Once world u client body c.requests (forward_again world u client body c).1.requests
  unfolding forward_again
  forward_again-Once body c h =
      forward_body_once _ c body (read_limited_within (pos u.max_request) body h)

  fall_back-requests : (r : Outcome × Ctx S) → (fall_back world u client r).requests ≡ r.1.requests
  unfolding fall_back
  fall_back-requests (returned (some e), c) = ground arith
  fall_back-requests (returned none, c) = refl
  fall_back-requests (waiting, c) = refl

  abbrev again : Str → Option (Ctx S → Outcome × Ctx S)
  again body = some (forward_again world u client body)

  forward_body_twice :
      (r : Body) {read : Option (Str × Bool)} (c : Ctx S)
      → IsRead (request_limit (pos u.max_request)) r read
      → AtMostTwice world u client r.bytes c.requests
          (forward_body world u client again read c).1.requests
  unfolding forward_body
  forward_body_twice r c (whole fits fine) =
      send_twice world u client (world.now c.world) r.bytes (forward_again world u client r.bytes)
        (λ c. forward_again-Once r.bytes c fits) (world.get_access_token c.world) c c.world refl
  forward_body_twice r c (longer more) =
      rw (record_audit-requests world u client _ _ _ _ _ _ _) unsent
  forward_body_twice r c (failed fits bad) = unsent

  -- Whatever the client sends and whatever happens, the proxy sends at most two requests to the
  -- upstream. Each carries a token that GetAccessToken has given for it and the client's whole
  -- body, and the second is sent only where the first was answered with 401.
  pub handler_requests :
      (body : Option Body) (c : Ctx S)
      → AtMostTwice world u client
          (bytes_of body)
          c.requests
          (handler world u client body c).requests
  unfolding handler forward
  handler_requests none c =
      rw
        (fall_back-requests
          (forward_body world u client again (read_limited none (pos u.max_request)) c))
        (unfold read_limited in
          forward_body_twice (record { bytes = []; fails = false }) c (whole (omega arith) refl))
  handler_requests (some r) c =
      rw
        (fall_back-requests
          (forward_body world u client again (read_limited (some r) (pos u.max_request)) c))
        (forward_body_twice r c (read_limited-IsRead (pos u.max_request) r))
