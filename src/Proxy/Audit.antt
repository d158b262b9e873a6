-- ===== src/Proxy/Audit.antt =====
-- internal/proxy/proxy.go: the audit row of a request.
use grok_auth_proxy.Prelude.{
  ℕ, ◌-◌, ◌/◌, Bool, false, Option, none, some, [], ◌∷◌, ◌++◌, is_empty, if◌then◌else◌,
}
use grok_auth_proxy.Prelude.Int.{pos}
use grok_auth_proxy.Text.{Str}
use grok_auth_proxy.Clock.{Time}
use grok_auth_proxy.Proxy.Body.{clamp_for_audit}
use grok_auth_proxy.Proxy.Context.{ClientRequest, ForwardError, AuditRow, World, Upstream, Ctx}

abbrev or_empty : Option Str → Str
or_empty none = []
or_empty (some s) = s

abbrev or_false : Option Bool → Bool
or_false none = false
or_false (some b) = b

module _ {S : Type 0} (world : World S) where
  -- extractModel
  unfoldable pub extract_model : Str → Str
  extract_model body = if is_empty body then [] else or_empty (world.json_model body)

  -- detectStream
  unfoldable pub detect_stream : Str → Bool
  detect_stream body = if is_empty body then false else or_false (world.json_stream body)

  -- The row of recordAudit.
  unfoldable pub audit_row :
      Upstream
      → ClientRequest
      → (start now : Time) → (req_body resp_body : Str) → (resp_trunc : Bool) → (status : ℕ)
      → Option ForwardError
      → AuditRow
  audit_row u client start now req_body resp_body resp_trunc status call_err =
      let (stored_req, req_trunc) = clamp_for_audit req_body (pos u.max_body) in
      record {
        request_id = client.request_id;
        api_key = client.api_key;
        method = client.method;
        path = client.url.path;
        query = client.url.raw_query;
        client_ip = client.client_ip;
        user_agent = client.user_agent;
        status_code = status;
        latency_ms = (now - start) / 1_000_000;
        request_body = stored_req;
        response_body = resp_body;
        request_truncated = req_trunc;
        response_truncated = resp_trunc;
        stream = detect_stream req_body;
        model = extract_model req_body;
        error = call_err;
      }

  -- recordAudit; an error of the insertion is only logged.
  unfoldable pub record_audit :
      Upstream
      → ClientRequest
      → (start : Time) → (req_body resp_body : Str) → (resp_trunc : Bool) → (status : ℕ)
      → Option ForwardError
      → Ctx S
      → Ctx S
  record_audit u client start req_body resp_body resp_trunc status call_err c =
      if u.audit_enabled
      then record c {
        audit =
            c.audit
            ++ audit_row u client start (world.now c.world) req_body resp_body resp_trunc status
                call_err
              ∷ [];
      }
      else c
