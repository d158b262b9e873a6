-- ===== src/Health/Readiness.antt =====
-- internal/handlers/health/health.go with internal/store/store.go: what the readiness probe answers.
use grok_auth_proxy.Prelude.{
  ◌+◌, ◌*◌, ◌≤◌, ◌<◌, ◌≡◌, refl, Bool, true, false, Option, none, some, List, [], ◌∷◌, ◌++◌, In,
  if_elim,
}
use grok_auth_proxy.Clock.{Time, second, zero_time}
use grok_auth_proxy.Auth.Manager.{Manager, ready, expires_at}
use grok_auth_proxy.Store.Health.{Probe, healthy, run_probes}
use grok_auth_proxy.Store.Health.Grace.{IsTimed, IsHonest, successes, probes-IsHonest}
use grok_auth_proxy.Health.{auth, db, Report, alive, not_ready, is_ready, with_store, ready_handler}

-- What a report means, by the manager and by the times at which the database has been reached.
abbrev pub IsTrue : Option Manager → Probe → List Time → Report → Type 0
IsTrue m p ts alive = ⊥
IsTrue m p ts (not_ready auth) = (n : Manager) → m ≡ some n → ready n ≡ false
IsTrue m p ts (not_ready db) =
    (p.reachable ≡ false) × ((t : Time) → In t ts → t + 45 * second ≤ p.now_grace)
IsTrue m p ts (is_ready e) =
    ((n : Manager) × (m ≡ some n) × (ready n ≡ true) × (e ≡ expires_at n))
    × ((t : Time) × In t ts × (p.now < t + 45 * second))

with_store-IsTrue :
    (m : Manager) (p : Probe) (ts : List Time) (r : Bool × Time)
    → ready m ≡ true
    → IsHonest p r.0 ts
    → IsTrue (some m) p ts (with_store m r).0
with_store-IsTrue m p ts (true, last) has_token (yes', no') =
    ((m, refl, has_token, refl), yes' refl)
with_store-IsTrue m p ts (false, last) has_token (yes', no') = no' refl

-- Readiness probes come one after another, by a clock that never goes back, to a store that was opened
-- past the zero time. The probe answers `ready` only where the manager holds an access token,
-- whose expiry it then reports, and the database has been reached less than 45 seconds before. It
-- blames the credentials only where there is no token, and the database only where it could not be
-- reached and every success is 45 seconds ago, or more.
pub ready_handler-IsTrue :
    (m : Option Manager) (opened : Time) (ps : List Probe) (p : Probe)
    → zero_time < opened
    → IsTimed opened (ps ++ p ∷ [])
    → IsTrue m p
        (opened ∷ successes (ps ++ p ∷ []) opened)
        (ready_handler m true p (run_probes ps opened)).0
unfolding ready_handler
ready_handler-IsTrue none opened ps p positive timed = λ n e. absurd (cc)
ready_handler-IsTrue (some m) opened ps p positive timed =
    let last = run_probes ps opened in
    let ts = opened ∷ successes (ps ++ p ∷ []) opened in
    if_elim (λ (r : Report × Time). IsTrue (some m) p ts r.0) (ready m)
      (λ e.
        with_store-IsTrue m p ts (healthy p last) e (probes-IsHonest opened ps p positive timed))
      (λ e n same. let k : m ≡ n = cc in rw⁻¹ k e)
