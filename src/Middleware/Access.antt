-- ===== src/Middleware/Access.antt =====
-- internal/middleware/middleware.go: AccessLog, the line that it logs for a request.
pub mod Hidden
use grok_auth_proxy.Prelude.{ℕ, ◌-◌, Bool, Option, none, some, is_empty, leb, if◌then◌else◌}
use grok_auth_proxy.Text.{Str, codes}
use grok_auth_proxy.Clock.{Time}
use grok_auth_proxy.Http.{Headers}
use grok_auth_proxy.Middleware.Keys.{get_header, mask_bearer}

pub data Severity : Type 0 where
  logged_info logged_warn logged_error : Severity

-- What the middleware reads once the handlers have run.
pub record Served : Type 0 where
  pub request_id : Str
  pub method : Str
  pub path : Str
  pub header : Headers
  pub status : ℕ
  pub client_ip : Str
  pub start : Time
  pub finish : Time

-- The fields of the line.
pub record AccessLine : Type 0 where
  pub request_id : Str
  pub method : Str
  pub path : Str
  pub status : ℕ
  pub latency : ℕ
  pub client_ip : Str
  pub authorization : Option Str

abbrev pub severity_of : (status : ℕ) → Severity
severity_of status =
    if leb 500 status then logged_error else if leb 400 status then logged_warn else logged_info

-- The field for the credentials of the client.
unfoldable pub authorization_of : (redact : Bool) → Headers → Option Str
authorization_of redact header =
    let auth = get_header (codes "Authorization") header in
    if redact then none else if is_empty auth then none else some (mask_bearer auth)

-- AccessLog. The clock of a latency does not go back.
unfoldable pub access_log : (redact : Bool) → Served → Severity × AccessLine
access_log redact served = (
  severity_of served.status,
  record {
    request_id = served.request_id;
    method = served.method;
    path = served.path;
    status = served.status;
    latency = served.finish - served.start;
    client_ip = served.client_ip;
    authorization = authorization_of redact served.header;
  },
)
