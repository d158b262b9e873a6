-- ===== src/Store/Health/Grace.antt =====
-- internal/store/store.go: how long a database that answered is taken to be reachable.
use grok_auth_proxy.Prelude.{
  ◌+◌, ◌*◌, ◌≤◌, ◌<◌, ◌≡◌, refl, Bool, true, false, not, ◌&&◌, List, [], ◌∷◌, ◌++◌, In, In-split,
  In-left, In-right, inl, inr, Bool-cases, arith, if◌then◌else◌,
}
use mathlib.Core.List.{append-nil, append_assoc}
use grok_auth_proxy.Clock.{Time, second, zero_time, is_zero}
use grok_auth_proxy.Store.Health.{ping_interval, Probe, is_within, ping, healthy, run_probes}

-- The time at which a probe reaches the database, where it asks for it.
abbrev reached : Probe → (last : Time) → List Time
reached p last =
    if not (is_zero last) && is_within ping_interval p.now last
    then []
    else if p.reachable
    then p.now_ping ∷ []
    else []

-- The times at which the probes have reached the database.
abbrev pub successes : List Probe → (last : Time) → List Time
successes [] last = []
successes (p ∷ ps) last = reached p last ++ successes ps (healthy p last).1

-- The clock never goes back: not in a probe, and not from one to the next.
abbrev pub IsTimed : Time → List Probe → Type 0
IsTimed t [] = Unit
IsTimed t (p ∷ ps) =
    (t ≤ p.now) × (p.now ≤ p.now_ping) × (p.now_ping ≤ p.now_grace) × IsTimed p.now_grace ps

-- Of the successes so far, `last` is the latest.
abbrev IsLatest : Time → List Time → Type 0
IsLatest last ts = In last ts × ((t : Time) → In t ts → t ≤ last)

-- What a probe leaves of it, and when it ends.
abbrev IsStill : Probe → Time → List Time → Type 0
IsStill p last seen =
    let last' = (healthy p last).1 in
    IsLatest last' (seen ++ reached p last) × (last' ≤ p.now_grace) × (zero_time < last')

healthy-IsStill :
    (p : Probe) (last : Time) (seen : List Time)
    → zero_time < last
    → last ≤ p.now
    → p.now ≤ p.now_ping
    → p.now_ping ≤ p.now_grace
    → IsLatest last seen
    → IsStill p last seen
unfolding healthy ping
healthy-IsStill p last seen positive a b c (here, latest) =
    elim (Bool-cases (not (is_zero last) && is_within ping_interval p.now last)) [
      | inl fresh ↦ rw fresh (kept, omega arith, positive)
      | inr stale ↦ elim (Bool-cases p.reachable) [
        | inl up ↦
            rw (stale, up)
              (
                (
                  In-right seen (p.now_ping ∷ []) p.now_ping (inl refl),
                  λ t i. elim (In-split seen (p.now_ping ∷ []) t i) [
                    | inl j ↦ omega (arith, latest t j)
                    | inr j ↦ elim j [ inl e ↦ omega (arith, e) | inr j' ↦ elim j' [ ] ]
                  ],
                ),
                c,
                omega arith,
              )
        | inr down ↦ rw (stale, down) (kept, omega arith, positive)
      ]
    ]
  where
    kept : IsLatest last (seen ++ [])
    kept = (
      In-left seen [] last here,
      λ t i. elim (In-split seen [] t i) [ inl j ↦ latest t j | inr j ↦ elim j [ ] ],
    )

-- What an answer means, by the times at which the database has been reached.
abbrev pub IsHonest : Probe → Bool → List Time → Type 0
IsHonest p answer ts =
    (answer ≡ true → (t : Time) × In t ts × (p.now < t + 45 * second))
    × (answer ≡ false
        → (p.reachable ≡ false) × ((t : Time) → In t ts → t + 45 * second ≤ p.now_grace))

healthy-IsHonest :
    (p : Probe) (last : Time) (seen : List Time)
    → zero_time < last
    → last ≤ p.now
    → p.now ≤ p.now_ping
    → p.now_ping ≤ p.now_grace
    → IsLatest last seen
    → IsHonest p (healthy p last).0 (seen ++ reached p last)
unfolding healthy ping
healthy-IsHonest p last seen positive a b c (here, latest) =
    elim (Bool-cases (not (is_zero last) && is_within ping_interval p.now last)) [
      | inl fresh ↦
          rw fresh (λ _. (last, In-left seen [] last here, ground arith), λ e. absurd (cc))
      | inr stale ↦ elim (Bool-cases p.reachable) [
        | inl up ↦
            rw (stale, up)
              (
                λ _. (
                  p.now_ping,
                  In-right seen (p.now_ping ∷ []) p.now_ping (inl refl),
                  omega arith,
                ),
                λ e. absurd (cc),
              )
        | inr down ↦
            rw (stale, down)
              (
                λ e. (last, In-left seen [] last here, ground arith),
                λ e. (
                  refl,
                  λ t i. elim (In-split seen [] t i) [
                    | inl j ↦ let k = latest t j in ground arith
                    | inr j ↦ elim j [ ]
                  ],
                ),
              )
      ]
    ]

probe-IsHonest :
    (ps : List Probe) (p : Probe) (last t : Time) (seen : List Time)
    → zero_time < last
    → last ≤ t
    → IsTimed t (ps ++ p ∷ [])
    → IsLatest last seen
    → IsHonest p (healthy p (run_probes ps last)).0 (seen ++ successes (ps ++ p ∷ []) last)
unfolding run_probes
probe-IsHonest [] p last t seen positive past (a, b, c, _) latest =
    rw (append-nil (reached p last))
      (healthy-IsHonest p last seen positive (omega arith) b c latest)
probe-IsHonest (q ∷ ps) p last t seen positive past (a, b, c, timed) latest =
    let (latest', past', positive') =
      healthy-IsStill q last seen positive (omega arith) b c latest in
    let rest = successes (ps ++ p ∷ []) (healthy q last).1 in
    rw⁻¹ (append_assoc seen (reached q last) rest) (
      probe-IsHonest ps p (healthy q last).1 q.now_grace (seen ++ reached q last) positive' past'
        timed latest')

-- Probes come one after another, by a clock that never goes back, to a store that was opened past the
-- zero time. If Healthy answers yes, the store was opened or a ping reached the database less than 45
-- seconds before. If it answers no, the database could not be reached, and the opening and every
-- success are 45 seconds ago, or more: a shorter outage never takes the service out of rotation.
pub probes-IsHonest :
    (opened : Time) (ps : List Probe) (p : Probe)
    → zero_time < opened
    → IsTimed opened (ps ++ p ∷ [])
    → IsHonest p (healthy p (run_probes ps opened)).0 (opened ∷ successes (ps ++ p ∷ []) opened)
probes-IsHonest opened ps p positive timed =
    probe-IsHonest ps p opened opened (opened ∷ []) positive (omega arith) timed
      (inl refl, λ t i. elim i [ inl e ↦ omega (arith, e) | inr j ↦ elim j [ ] ])
