-- ===== src/Proxy/Forward.antt =====
-- internal/proxy/proxy.go: one request from the client to the upstream and back.
pub mod Sending
pub mod Requests
pub mod Credentials
pub mod Delivery
pub mod Refusals
use grok_auth_proxy.Prelude.{
  ℕ, Bool, true, false, not, ◌||◌, Option, none, some, [], ◌∷◌, ◌++◌, Result, ok, err, length, eqb,
  is_empty, if◌then◌else◌,
}
use grok_auth_proxy.Prelude.Int.{pos}
use grok_auth_proxy.Text.{Str, codes}
use grok_auth_proxy.Clock.{Time}
use grok_auth_proxy.Http.{set, del}
use grok_auth_proxy.Proxy.Headers.{copy_headers, filter_response_headers}
use grok_auth_proxy.Proxy.Url.{build_url}
use grok_auth_proxy.Proxy.Body.{Body, read_limited}
use grok_auth_proxy.Proxy.Stream.{Relay, no_relay, StreamError, write_failed, stream}
use grok_auth_proxy.Proxy.Context.{
  ClientRequest, UpstreamRequest, UpstreamResponse, ForwardError, body_unreadable, token_failed,
  bad_request, send_failed, refresh_failed, relay_failed, Part, too_large_object, error_object,
  relayed, Writer, write_json, World, Upstream, Ctx,
}
use grok_auth_proxy.Proxy.Audit.{record_audit}

-- How forward returns, with an error or without. An upstream that neither sends nor ends the
-- response keeps it waiting.
pub data Outcome : Type 0 where
  returned : Option ForwardError → Outcome
  waiting : Outcome

abbrev pub api_error : Str
api_error = codes "api_error"

-- The writer after the relay loop.
unfoldable pub write_relay :
    UpstreamResponse → Relay → Option (Option StreamError) → Writer → Writer
write_relay resp relay end w = record {
  header = filter_response_headers w.header resp.header;
  status = resp.status_code;
  written =
      w.written
      || not (is_empty relay.sent)
      || (elim end [ some (some write_failed) ↦ true | _ ↦ false ]);
  body = if is_empty relay.sent then w.body else w.body ++ relayed relay.sent ∷ [];
}

module _ {S : Type 0} (world : World S) (u : Upstream) (client : ClientRequest) where
  -- The request to the upstream: the client's headers but for the credentials, and the token.
  unfoldable pub upstream_request : (token req_body : Str) → UpstreamRequest
  upstream_request token req_body = record {
    method = client.method;
    url = world.url_string (build_url u.base client.url);
    header = del (codes "Host") (
        set (codes "Authorization") (codes "Bearer " ++ token)
          (del (codes "Authorization") (copy_headers [] client.header)));
    host = u.base.host;
    content_length = length req_body;
    body = req_body;
  }

  module _ (start : Time) (req_body : Str) where
    abbrev audit_here :
        (resp_body : Str) (resp_trunc : Bool) (status : ℕ) → Option ForwardError → Ctx S → Ctx S
    audit_here = record_audit world u client start req_body

    -- c.JSON with an error object, and recordAudit behind it.
    abbrev refuse : (status : ℕ) → Part → Option ForwardError → Ctx S → Ctx S
    refuse status part call_err c =
        audit_here [] false status call_err (record c { writer = write_json status part c.writer })

    abbrev end_relay :
        UpstreamResponse → Relay × Option (Option StreamError) → Ctx S → Outcome × Ctx S
    end_relay resp (relay, none) c =
        (waiting, record c { writer = write_relay resp relay none c.writer })
    end_relay resp (relay, some none) c = (
      returned none,
      audit_here relay.resp_buf relay.resp_trunc resp.status_code none
          (record c { writer = write_relay resp relay (some none) c.writer }),
    )
    end_relay resp (relay, some (some e)) c = (
      returned (some (relay_failed e)),
      audit_here relay.resp_buf relay.resp_trunc resp.status_code (some (relay_failed e))
          (record c { writer = write_relay resp relay (some (some e)) c.writer }),
    )

    -- The response goes to the client.
    unfoldable pub relay_response : UpstreamResponse → Ctx S → Outcome × Ctx S
    relay_response resp c =
        end_relay resp (stream u.audit_enabled u.max_body resp.rounds no_relay) c

    -- The 401 branch.
    abbrev refresh_and_retry :
        (retry : Ctx S → Outcome × Ctx S) → Option Str × S → Ctx S → Outcome × Ctx S
    refresh_and_retry retry (some rerr, s) c = (
      returned (some (refresh_failed rerr)),
      refuse 502 (error_object (codes "upstream unauthorized") api_error)
          (some (refresh_failed rerr)) (record c { world = s }),
    )
    refresh_and_retry retry (none, s) c = retry (record c { world = s })

    -- Behind httpClient.Do. Without `retry`, the request has been retried already.
    unfoldable pub answered :
        (retry : Option (Ctx S → Outcome × Ctx S))
        → Result Str UpstreamResponse × S
        → Ctx S
        → Outcome × Ctx S
    answered retry (err e, s) c = (
      returned (some (send_failed e)),
      audit_here [] false 0 (some (send_failed e)) (record c { world = s }),
    )
    answered none (ok resp, s) c = relay_response resp (record c { world = s })
    answered (some retry) (ok resp, s) c =
        if eqb resp.status_code 401
        then refresh_and_retry retry (world.force_refresh s) (record c { world = s })
        else relay_response resp (record c { world = s })

    -- Behind http.NewRequestWithContext.
    unfoldable pub dispatch :
        (retry : Option (Ctx S → Outcome × Ctx S))
        → UpstreamRequest
        → Option Str
        → Ctx S
        → Outcome × Ctx S
    dispatch retry req (some e) c = (returned (some (bad_request e)), c)
    dispatch retry req none c =
        answered retry (world.do_request req c.world)
          (record c { requests = c.requests ++ req ∷ [] })

    -- From the token to the response.
    unfoldable pub send_with :
        (retry : Option (Ctx S → Outcome × Ctx S)) → Result Str Str × S → Ctx S → Outcome × Ctx S
    send_with retry (err e, s) c = (
      returned (some (token_failed e)),
      refuse 503 (error_object (codes "upstream authentication unavailable") api_error)
          (some (token_failed e)) (record c { world = s }),
    )
    send_with retry (ok token, s) c =
        let req = upstream_request token req_body in
        dispatch retry req (world.request_error req.method req.url) (record c { world = s })

  -- Behind readLimited.
  unfoldable pub forward_body :
      (retry : Str → Option (Ctx S → Outcome × Ctx S))
      → Option (Str × Bool)
      → Ctx S
      → Outcome × Ctx S
  forward_body retry none c = (returned (some body_unreadable), c)
  forward_body retry (some (req_body, true)) c = (
    returned none,
    refuse (world.now c.world) req_body 413 (too_large_object u.max_request) none c,
  )
  forward_body retry (some (req_body, false)) c =
      send_with (world.now c.world) req_body (retry req_body) (world.get_access_token c.world) c

  -- forward with retried = true; then the body is what the first attempt has read.
  unfoldable pub forward_again : (req_body : Str) → Ctx S → Outcome × Ctx S
  forward_again req_body =
      forward_body (λ _. none)
        (read_limited (some (record { bytes = req_body; fails = false })) (pos u.max_request))

  -- forward with retried = false
  unfoldable pub forward : Option Body → Ctx S → Outcome × Ctx S
  forward body =
      forward_body (λ req_body. some (forward_again req_body))
        (read_limited body (pos u.max_request))

  -- The end of Handler.
  unfoldable pub fall_back : Outcome × Ctx S → Ctx S
  fall_back (returned (some e), c) = if c.writer.written then c else record c {
    writer = write_json 502 (error_object (codes "upstream request failed") api_error) c.writer;
  }
  fall_back (returned none, c) = c
  fall_back (waiting, c) = c

  -- Handler
  unfoldable pub handler : Option Body → Ctx S → Ctx S
  handler body c = fall_back (forward body c)
