-- ===== src/Admin/Audit/Tests.antt =====
-- Listings of the audit log as an administrator asks for them.
use grok_auth_proxy.Prelude.{◌≡◌, refl, false, Option, none, some, [], if◌then◌else◌}
use grok_auth_proxy.Prelude.Int.{pos, negsuc}
use grok_auth_proxy.Text.{Str, codes, ◌==◌, strings}
use grok_auth_proxy.Clock.{Time}
use grok_auth_proxy.Auth.Samples.{start}
use grok_auth_proxy.Store.Audit.{AuditLog}
use grok_auth_proxy.Store.Audit.Listing.{correct_limit, correct_offset, conditions, list_audit_logs}
use grok_auth_proxy.Admin.Audit.{atoi, list_audit_handler}

asking : Unit {0}
unfolding strings correct_limit correct_offset conditions list_audit_logs atoi list_audit_handler
asking = tt

numbers :
    (atoi (codes "-12") ≡ some (negsuc 11))
    × (atoi (codes "+7") ≡ some (pos 7))
    × (atoi (codes "9223372036854775808") ≡ none)
    × (atoi (codes "7x") ≡ none)
    × (atoi (codes "-") ≡ none)
unfolding asking
numbers = (refl, refl, refl, refl, refl)

abbrev row : AuditLog
row = record {
  id = codes "01";
  created_at = start;
  request_id = codes "r";
  api_key_id = codes "k";
  api_key_name = codes "first";
  api_key_prefix = codes "sk-gap-01";
  method = codes "GET";
  path = codes "/v1/models";
  query = [];
  client_ip = codes "192.0.2.1";
  user_agent = [];
  status_code = pos 200;
  latency_ms = pos 5;
  model = [];
  stream = false;
  request_body = [];
  response_body = [];
  request_truncated = false;
  response_truncated = false;
  error = [];
}

abbrev parse : Str → Option Time
parse s = if s == codes "now" then some start else none

abbrev query : Str → Str
query name =
    if name == codes "limit" then codes "1000" else if name == codes "from" then codes "now" else []
