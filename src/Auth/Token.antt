-- ===== src/Auth/Token.antt =====
-- internal/auth/auth.go: the access token for a request, the periodic refresh, the file watch.
pub mod Validity
pub mod Lockout
use grok_auth_proxy.Prelude.{
  ◌*◌, ◌+◌, Bool, true, false, not, ◌&&◌, ◌||◌, List, [], ◌++◌, Result, ok, err, if◌then◌else◌,
}
use grok_auth_proxy.Prelude.Int.{ℤ, pos, negsuc}
use grok_auth_proxy.Text.{Str, is_blank}
use grok_auth_proxy.Clock.{Time, is_zero, before, after, add}
use grok_auth_proxy.Auth.Entry.{Entry}
use grok_auth_proxy.Auth.Manager.{
  AuthError, no_access_token, expired_and_failed, Event, JsonLib, Manager, Act, publish_metrics,
}
use grok_auth_proxy.Auth.Refresh.{RefreshEnv, do_refresh}

-- The clock at the expiry test, what a refresh meets, and the clock after a refresh that failed.
pub record TokenEnv : Type 0 where
  pub now_check : Time
  pub refresh : RefreshEnv
  pub now_fallback : Time

abbrev pub needs_refresh : Time → Manager → Bool
needs_refresh now m =
    not (is_zero m.entry.expires_at) && after (add now m.refresh_skew) m.entry.expires_at

-- What GetAccessToken does with the outcome of the refresh; `entry` is the one that it read before.
unfoldable pub after_refresh :
    Time
    → Entry
    → Result AuthError (Unit {0}) × Manager × List Event
    → Result AuthError Str × Manager × List Event
after_refresh now entry (ok _, m, events) = (ok m.entry.key, m, events)
after_refresh now entry (err e, m, events) =
    if before now entry.expires_at
    then (ok entry.key, m, events)
    else (err (expired_and_failed e), m, events)

-- GetAccessToken
unfoldable pub get_access_token : JsonLib → TokenEnv → Act Str
get_access_token json env m =
    if is_blank m.entry.key
    then (err no_access_token, m, [])
    else if needs_refresh env.now_check m
    then after_refresh env.now_fallback m.entry (do_refresh json env.refresh false m)
    else (ok m.entry.key, m, [])

-- ForceRefresh
unfoldable pub force_refresh : JsonLib → RefreshEnv → Act (Unit {0})
force_refresh json env m = do_refresh json env true m

-- 2 * d
abbrev pub twice : ℤ → ℤ
twice (pos n) = pos (2 * n)
twice (negsuc n) = negsuc (2 * n + 1)

-- proactiveTick; the errors of the refresh are only logged.
unfoldable pub proactive_tick : JsonLib → Time → RefreshEnv → Manager → Manager × List Event
proactive_tick json now env m =
    let published = publish_metrics m in
    if is_zero m.entry.expires_at
    then (m, published)
    else if before (add now (twice m.refresh_skew)) m.entry.expires_at
    then (m, published)
    else (let (r, m', events) = do_refresh json env false m in (m', published ++ events))

-- A file system event of the watch: whether its base name is the auth file's, and its operations.
pub record FileEvent : Type 0 where
  pub is_auth_file : Bool
  pub write : Bool
  pub create : Bool
  pub rename : Bool

-- Whether the watch loop starts the timer of a reload for the event.
unfoldable pub schedules_reload : Manager → FileEvent → Bool
schedules_reload m ev =
    if not ev.is_auth_file
    then false
    else if not (ev.write || ev.create || ev.rename)
    then false
    else not m.writing
