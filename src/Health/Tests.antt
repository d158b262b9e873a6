-- ===== src/Health/Tests.antt =====
-- The readiness probe in an outage of the database.
use grok_auth_proxy.Prelude.{ℕ, ◌+◌, ◌*◌, ◌≡◌, refl, true, false, some, List, [], ◌∷◌, ◌++◌, arith}
use grok_auth_proxy.Text.{strings}
use grok_auth_proxy.Clock.{Time, second}
use grok_auth_proxy.Auth.Manager.{ready, expires_at}
use grok_auth_proxy.Auth.Samples.{late, manager_of}
use grok_auth_proxy.Store.Health.{Probe, ping, healthy, run_probes}
use grok_auth_proxy.Store.Health.Grace.{successes}
use grok_auth_proxy.Health.{is_ready, ready_handler}
use grok_auth_proxy.Health.Readiness.{IsTrue, ready_handler-IsTrue}

probing : Unit {0}
unfolding strings ready expires_at ping healthy run_probes ready_handler
probing = tt

abbrev open_time : Time
open_time = 64_000_000_000 * second

abbrev up_at : ℕ → Probe
up_at s = record {
  now = open_time + s * second;
  reachable = true;
  now_ping = open_time + s * second;
  now_grace = open_time + s * second;
}

abbrev down_at : ℕ → Probe
down_at s = record (up_at s) { reachable = false }

-- The database answers after 20 seconds, and no more from then on.
abbrev probes : List Probe
probes = up_at 20 ∷ down_at 40 ∷ down_at 60 ∷ []

still_ready :
    (ready_handler
      (some (manager_of late))
      true
      (down_at 60)
      (run_probes (up_at 20 ∷ down_at 40 ∷ []) open_time)).0
    ≡ is_ready late.expires_at
unfolding probing
still_ready = refl

ready_handler-IsTrue_example :
    IsTrue
      (some (manager_of late))
      (down_at 80)
      (open_time ∷ successes (probes ++ down_at 80 ∷ []) open_time)
      (ready_handler (some (manager_of late)) true (down_at 80) (run_probes probes open_time)).0
ready_handler-IsTrue_example =
    ready_handler-IsTrue (some (manager_of late)) open_time probes (down_at 80) (omega arith) (
      omega arith,
      omega arith,
      omega arith,
      (
        omega arith,
        omega arith,
        omega arith,
        (omega arith, omega arith, omega arith, (omega arith, omega arith, omega arith, tt)),
      ),
    )
