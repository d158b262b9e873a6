-- ===== src/Auth/Watch/Tests.antt =====
-- The watch on a few rows of inputs.
use grok_auth_proxy.Prelude.{ℕ, ◌*◌, ◌≡◌, refl, true, false, List, [], ◌∷◌}
use grok_auth_proxy.Text.{codes, strings}
use grok_auth_proxy.Clock.{Time}
use grok_auth_proxy.Auth.Samples.{late, manager_of}
use grok_auth_proxy.Auth.Token.{schedules_reload}
use grok_auth_proxy.Auth.Watch.{
  Notice, Input, notice, watch_error, stop, base, start_watch, restarts, on_input, watch_step,
  watch_loop,
}

watching : Unit {0}
unfolding strings base schedules_reload restarts start_watch on_input watch_step watch_loop
watching = tt

abbrev ms : ℕ → Time
ms n = n * 1_000_000

abbrev file_written : Notice
file_written = record {
  name = codes "/etc/gap/auth.json";
  create = false;
  write = true;
  remove = false;
  rename = false;
  chmod = false;
}

base_of : base (codes "/etc/gap//") ≡ codes "gap"
unfolding watching
base_of = refl

-- Two changes in a burst, one that the program makes, an error, and one more change.
abbrev burst : List (Time × Input)
burst =
    (ms 120, notice file_written false)
    ∷ (ms 180, notice file_written true)
    ∷ (ms 500, watch_error)
    ∷ (ms 900, notice file_written false)
    ∷ []

bursts :
    (watch_loop (manager_of late) ((ms 0, notice file_written false) ∷ burst) start_watch).reloads
    ≡ ms 320 ∷ ms 1100 ∷ []
unfolding watching
bursts = refl

-- A change whose timer the stop clears.
stop_clears :
    (watch_loop
      (manager_of late)
      ((ms 0, notice file_written false) ∷ (ms 199, stop) ∷ [])
      start_watch).reloads
    ≡ []
unfolding watching
stop_clears = refl
