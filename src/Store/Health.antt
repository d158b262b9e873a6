-- ===== src/Store/Health.antt =====
-- internal/store/store.go: the connectivity of the database, as probes ask for it.
pub mod Grace
use grok_auth_proxy.Prelude.{
  ℕ, ◌+◌, ◌*◌, Bool, true, false, not, ◌&&◌, List, [], ◌∷◌, ltb, if◌then◌else◌,
}
use grok_auth_proxy.Clock.{Time, second, is_zero}

abbrev pub db_ok_grace : ℕ
db_ok_grace = 45 * second

-- Below this age of the last success, the database is not asked.
abbrev pub ping_interval : ℕ
ping_interval = 10 * second

-- What one probe meets: whether the database can be reached within the timeout of the ping, and the
-- clock at its three readings.
pub record Probe : Type 0 where
  pub now : Time
  pub reachable : Bool
  pub now_ping : Time
  pub now_grace : Time

-- time.Since(last) < d
abbrev pub is_within : ℕ → (now last : Time) → Bool
is_within d now last = ltb now (last + d)

-- Ping: whether it succeeds, and dbLastOK.
unfoldable pub ping : Probe → (last : Time) → Bool × Time
ping probe last = if probe.reachable then (true, probe.now_ping) else (false, last)

-- Healthy past the ping.
abbrev pub after_ping : Probe → (last : Time) → Bool × Time → Bool × Time
after_ping probe last (true, last') = (true, last')
after_ping probe last (false, last') =
    (not (is_zero last) && is_within db_ok_grace probe.now_grace last, last')

-- Healthy: its answer, and dbLastOK.
unfoldable pub healthy : Probe → (last : Time) → Bool × Time
healthy probe last =
    if not (is_zero last) && is_within ping_interval probe.now last
    then (true, last)
    else after_ping probe last (ping probe last)

-- dbLastOK after a row of probes.
unfoldable pub run_probes : List Probe → Time → Time
run_probes [] last = last
run_probes (p ∷ ps) last = run_probes ps (healthy p last).1
