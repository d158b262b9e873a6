-- ===== src/Proxy/Forward/Delivery.antt =====
-- Handler of internal/proxy/proxy.go: an exchange that goes well, from end to end.
use grok_auth_proxy.Prelude.{
  ◌≡◌, false, Option, none, some, List, [], ◌∷◌, ◌++◌, ok, length, take, ltb, eqb, is_empty,
  if◌then◌else◌,
}
use grok_auth_proxy.Text.{Str}
use grok_auth_proxy.Clock.{Time}
use grok_auth_proxy.Proxy.Headers.{filter_response_headers}
use grok_auth_proxy.Proxy.Body.{Body}
use grok_auth_proxy.Proxy.Stream.Kept.{kept, body_of, RunsToEnd}
use grok_auth_proxy.Proxy.Context.{
  ClientRequest, UpstreamRequest, UpstreamResponse, relayed, World, Upstream, Ctx,
}
use grok_auth_proxy.Proxy.Audit.{audit_row, record_audit}
use grok_auth_proxy.Proxy.Forward.{Outcome, upstream_request, write_relay}

module _ {S : Type 0} (world : World S) (u : Upstream) (client : ClientRequest)
    (body token : Str) where
  abbrev sent_request : UpstreamRequest
  sent_request = upstream_request world u client token body

  -- A token is there, the request is one that can be sent, and the upstream answers with `resp`.
  -- The world goes from `s` to `s'`.
  abbrev pub Answers : S → UpstreamResponse → S → Type 0
  Answers s resp s' =
      (s₁ : S) × (world.get_access_token s ≡ (ok token, s₁))
      × (world.request_error sent_request.method sent_request.url ≡ none)
      × (world.do_request sent_request s₁ ≡ (ok resp, s'))

  -- Auditing or not, what the client and the log have when the response has been relayed whole.
  abbrev pub Delivered :
      (before : List UpstreamRequest)
      → UpstreamResponse
      → (start now : Time) → Ctx S
      → Ctx S
      → Type 0
  Delivered before resp start now c c' =
      let all = body_of resp.rounds in
      let row =
        audit_row world u client start now body (take u.max_body all) (ltb u.max_body (length all))
          resp.status_code none in
      (c'.writer.status ≡ resp.status_code)
      × (c'.writer.header ≡ filter_response_headers c.writer.header resp.header)
      × (c'.writer.body
          ≡ (if is_empty all then c.writer.body else c.writer.body ++ relayed all ∷ []))
      × (c'.requests ≡ before ++ sent_request ∷ [])
      × (c'.audit ≡ (if u.audit_enabled then c.audit ++ row ∷ [] else c.audit))

  -- The response is not one that is retried.
  abbrev Final : Option (Ctx S → Outcome × Ctx S) → UpstreamResponse → Type 0
  Final none resp = Unit
  Final (some retry) resp = eqb resp.status_code 401 ≡ false

  module _ (start : Time) (resp : UpstreamResponse) (ends : RunsToEnd resp.rounds) where
    -- The state when a response has been relayed whole.
    abbrev delivered : S → Ctx S → Ctx S
    delivered s c =
        let all = kept u.audit_enabled u.max_body (body_of resp.rounds) in
        record_audit world u client start body all.resp_buf all.resp_trunc resp.status_code none
          (record c { world = s; writer = write_relay resp all (some none) c.writer })

module _ {S : Type 0} (world : World S) (u : Upstream) (client : ClientRequest) where
  abbrev whole_body : Str → Option Body
  whole_body body = some (record { bytes = body; fails = false })

  -- The state in which the second attempt begins, when the first was answered with 401 and the token
  -- could be refreshed. The world is `s` then.
  abbrev pub retry_from : (body token : Str) → S → Ctx S → Ctx S
  retry_from body token s c = record c {
    world = s;
    requests = c.requests ++ upstream_request world u client token body ∷ [];
  }
