-- ===== src/Auth/Proactive/Tests.antt =====
-- A tick within twice the skew of the expiry, but before the skew.
use grok_auth_proxy.Prelude.{◌+◌, ◌*◌, ◌≡◌, refl, List, [], ◌∷◌}
use grok_auth_proxy.Clock.{second}
use grok_auth_proxy.Auth.Refresh.{failed}
use grok_auth_proxy.Auth.Samples.{start, late, sample_json, env_at, manager_of}
use grok_auth_proxy.Auth.Proactive.{Wake, tick, stopped, start_proactive_refresh}
use grok_auth_proxy.Auth.Proactive.Idle.{OnlyMeasured, start_proactive_refresh-OnlyMeasured}

-- The token expires after 7200 seconds; the skew is 300 seconds.
abbrev wakes : List Wake
wakes = tick (start + 6800 * second) (env_at (start + 6800 * second) failed) ∷ stopped ∷ []

start_proactive_refresh-OnlyMeasured_example :
    let (m', events) =
      start_proactive_refresh sample_json start (env_at start failed) wakes (manager_of late) in
    (m' ≡ manager_of late) × OnlyMeasured events
start_proactive_refresh-OnlyMeasured_example =
    start_proactive_refresh-OnlyMeasured sample_json start (env_at start failed) wakes
      (manager_of late) (refl, (refl, tt))
