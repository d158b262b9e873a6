-- ===== src/Health.antt =====
-- internal/handlers/health/health.go: the liveness and the readiness probe.
pub mod Readiness
mod Tests
use grok_auth_proxy.Prelude.{ℕ, Bool, true, false, Option, none, some, if◌then◌else◌}
use grok_auth_proxy.Clock.{Time}
use grok_auth_proxy.Auth.Manager.{Manager, ready, expires_at}
use grok_auth_proxy.Store.Health.{Probe, healthy}

-- The field "reason".
pub data Reason : Type 0 where
  auth db : Reason

-- The JSON objects: {"status": "ok"}, {"status": "not_ready", …} and {"status": "ready", …}.
pub data Report : Type 0 where
  alive : Report
  not_ready : Reason → Report
  is_ready : (expires_at : Time) → Report

abbrev pub status : Report → ℕ
status (not_ready reason) = 503
status _ = 200

-- Health
unfoldable pub health_handler : Report
health_handler = alive

-- Ready on the answer of the store, with dbLastOK.
abbrev pub with_store : Manager → Bool × Time → Report × Time
with_store m (true, last) = (is_ready (expires_at m), last)
with_store m (false, last) = (not_ready db, last)

-- Ready for a manager that is not nil.
abbrev pub of_manager : Manager → (has_store : Bool) → Probe → Time → Report × Time
of_manager m has_store probe last =
    if ready m
    then if has_store then with_store m (healthy probe last) else (is_ready (expires_at m), last)
    else (not_ready auth, last)

-- Ready; the manager is `none` and `has_store` is false where the handler's field is nil.
unfoldable pub ready_handler : Option Manager → (has_store : Bool) → Probe → Time → Report × Time
ready_handler none has_store probe last = (not_ready auth, last)
ready_handler (some m) has_store probe last = of_manager m has_store probe last
