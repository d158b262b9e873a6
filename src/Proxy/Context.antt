-- ===== src/Proxy/Context.antt =====
-- internal/proxy/proxy.go: what a request to the proxy reads and changes: the client's request, the
-- response writer of gin, the requests to the upstream and the rows of the audit log.
use grok_auth_proxy.Prelude.{
  ℕ, Bool, true, Option, List, [], ◌∷◌, ◌++◌, Result, is_empty, if◌then◌else◌,
}
use grok_auth_proxy.Text.{Str, codes}
use grok_auth_proxy.Clock.{Time}
use grok_auth_proxy.Net.{Url}
use grok_auth_proxy.Http.{Headers, values, set}
use grok_auth_proxy.Proxy.Stream.{Round, StreamError}

-- The request that net/http hands to a handler. The body is `none` where it is nil.
pub record ClientRequest : Type 0 where
  pub method : Str
  pub url : Url
  pub header : Headers
  pub client_ip : Str
  pub user_agent : Str
  pub request_id : Str
  -- what the API key middleware has put into the context: id, name and prefix
  pub api_key : Option (Str × Str × Str)

-- http.Request as it goes to the upstream.
pub record UpstreamRequest : Type 0 where
  pub method : Str
  pub url : Str
  pub header : Headers
  pub host : Str
  pub content_length : ℕ
  pub body : Str

-- http.Response; the body is what the relay loop meets.
pub record UpstreamResponse : Type 0 where
  pub status_code : ℕ
  pub header : Headers
  pub rounds : List Round

pub data ForwardError : Type 0 where
  body_unreadable : ForwardError
  token_failed bad_request send_failed refresh_failed : Str → ForwardError
  relay_failed : StreamError → ForwardError

-- store.AuditLog, less the id and the creation time that the database fills in. For callErr.Error()
-- the error itself is kept.
pub record AuditRow : Type 0 where
  pub request_id : Str
  pub api_key : Option (Str × Str × Str)
  pub method : Str
  pub path : Str
  pub query : Str
  pub client_ip : Str
  pub user_agent : Str
  pub status_code : ℕ
  pub latency_ms : ℕ
  pub request_body : Str
  pub response_body : Str
  pub request_truncated : Bool
  pub response_truncated : Bool
  pub stream : Bool
  pub model : Str
  pub error : Option ForwardError

-- What has been written to the client: an error object of the proxy, by its message and type or, for
-- a request that is too large, by the limit that its message names; or bytes of the upstream's response.
pub data Part : Type 0 where
  too_large_object : (max_request : ℕ) → Part
  error_object : (message kind : Str) → Part
  relayed : Str → Part

-- gin.ResponseWriter
pub record Writer : Type 0 where
  pub header : Headers
  pub status : ℕ
  pub written : Bool
  pub body : List Part

-- c.JSON: the content type is set where there is none.
unfoldable pub write_json : ℕ → Part → Writer → Writer
write_json status part w = record {
  header =
      if is_empty (values (codes "Content-Type") w.header)
      then set (codes "Content-Type") (codes "application/json; charset=utf-8") w.header
      else w.header;
  status = status;
  written = true;
  body = w.body ++ part ∷ [];
}

-- The tokens, the upstream and the libraries. A call changes the state of the world outside the
-- proxy.
pub record World (S : Type 0) : Type 0 where
  -- TokenProvider
  pub get_access_token : S → Result Str Str × S
  pub force_refresh : S → Option Str × S
  -- httpClient.Do
  pub do_request : UpstreamRequest → S → Result Str UpstreamResponse × S
  -- time.Now
  pub now : S → Time
  -- http.NewRequestWithContext: the error for a method and a URL
  pub request_error : (method url : Str) → Option Str
  -- u.String()
  pub url_string : Url → Str
  -- json.Unmarshal into a struct with "model" or "stream", `none` for an error
  pub json_model : Str → Option Str
  pub json_stream : Str → Option Bool

-- Upstream, less the client, the tokens and the logger.
pub record Upstream : Type 0 where
  pub base : Url
  pub audit_enabled : Bool
  pub max_body : ℕ
  pub max_request : ℕ

-- The state that a request runs through.
pub record Ctx (S : Type 0) : Type 0 where
  pub world : S
  pub writer : Writer
  pub requests : List UpstreamRequest
  pub audit : List AuditRow
