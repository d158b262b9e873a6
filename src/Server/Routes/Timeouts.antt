-- ===== src/Server/Routes/Timeouts.antt =====
-- internal/server/server.go with internal/config/config.go: the limits of the HTTP server.
use grok_auth_proxy.Prelude.{◌≡◌, true, ok, arith, ◌*◌}
use grok_auth_proxy.Prelude.Int.{ℤ, pos, is_positive}
use grok_auth_proxy.Clock.{second}
use grok_auth_proxy.Net.{NetLib}
use grok_auth_proxy.Config.{Config, positive_or, validate}
use grok_auth_proxy.Config.Validation.{validate-IsSettled}
use grok_auth_proxy.Server.Routes.{http_server}

positive_or_lem : (d x : ℤ) → is_positive x ≡ true → positive_or d x ≡ x
unfolding positive_or
positive_or_lem d x h = ground arith

-- With settings that the validation has returned, the server reads and idles exactly as long as they
-- say, never without a limit, and the fallbacks of New do not apply.
pub http_server-timeouts :
    (net : NetLib) (c c' : Config)
    → validate net c ≡ ok c'
    → ((http_server c').read_timeout ≡ c'.server.read_timeout)
      × ((http_server c').idle_timeout ≡ c'.server.idle_timeout)
      × (is_positive (http_server c').read_timeout ≡ true)
      × (is_positive (http_server c').idle_timeout ≡ true)
unfolding http_server
http_server-timeouts net c c' h =
    let settled = (validate-IsSettled net c h).0 in
    let read = positive_or_lem (pos (60 * second)) c'.server.read_timeout settled.read_timeout in
    let idle = positive_or_lem (pos (120 * second)) c'.server.idle_timeout settled.idle_timeout in
    (read, idle, rw read settled.read_timeout, rw idle settled.idle_timeout)
