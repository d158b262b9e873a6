-- ===== src/Auth/Proactive.antt =====
-- internal/auth/auth.go: the goroutine that refreshes the token periodically.
pub mod Idle
mod Tests
use grok_auth_proxy.Prelude.{◌*◌, List, [], ◌∷◌, ◌++◌, if◌then◌else◌}
use grok_auth_proxy.Prelude.Int.{ℤ, pos, is_positive}
use grok_auth_proxy.Clock.{Time, second}
use grok_auth_proxy.Auth.Manager.{Event, JsonLib, Manager}
use grok_auth_proxy.Auth.Refresh.{RefreshEnv}
use grok_auth_proxy.Auth.Token.{proactive_tick}

-- The interval that the ticker gets.
abbrev pub tick_interval : ℤ → ℤ
tick_interval interval = if is_positive interval then interval else pos (60 * second)

-- What wakes the goroutine: a tick, with the clock and what a refresh meets, or the stop channel.
pub data Wake : Type 0 where
  tick : Time → RefreshEnv → Wake
  stopped : Wake

unfoldable pub run_ticks : JsonLib → List Wake → Manager × List Event → Manager × List Event
run_ticks json [] s = s
run_ticks json (stopped ∷ wakes) s = s
run_ticks json (tick now env ∷ wakes) (m, events) =
    let (m', more) = proactive_tick json now env m in run_ticks json wakes (m', events ++ more)

-- StartProactiveRefresh: one tick at once, and then those of the ticker.
unfoldable pub start_proactive_refresh :
    JsonLib → (now : Time) → RefreshEnv → List Wake → Manager → Manager × List Event
start_proactive_refresh json now env wakes m = run_ticks json (tick now env ∷ wakes) (m, [])
