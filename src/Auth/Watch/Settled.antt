-- ===== src/Auth/Watch/Settled.antt =====
-- internal/auth/auth.go: no change of the file is missed by the watch.
use grok_auth_proxy.Prelude.{◌+◌, ◌≤◌, List, [], ◌∷◌, In}
use grok_auth_proxy.Clock.{Time}
use grok_auth_proxy.Auth.Manager.{Manager}
use grok_auth_proxy.Auth.Watch.{Input, notice, watch_error, stop, closed, debounce_delay}

-- The loop is not stopped.
abbrev pub IsOpen : List (Time × Input) → Type 0
IsOpen [] = Unit
IsOpen ((now, stop) ∷ inputs) = ⊥
IsOpen ((now, closed) ∷ inputs) = ⊥
IsOpen ((now, watch_error) ∷ inputs) = IsOpen inputs
IsOpen ((now, notice ev writing) ∷ inputs) = IsOpen inputs

-- Each input comes no earlier than the one before it.
abbrev pub IsOrdered : Time → List (Time × Input) → Type 0
IsOrdered t [] = Unit
IsOrdered t ((now, input) ∷ inputs) = (t ≤ now) × IsOrdered now inputs

module _ (m : Manager) where
  -- A reload that reads what was in the file at the time `t`.
  abbrev HasReload : Time → List Time → Type 0
  HasReload t reloads = (r : Time) × In r reloads × (t + debounce_delay ≤ r)
