-- ===== src/Auth/Watch/Debounced.antt =====
-- internal/auth/auth.go: the reloads of the watch, against a description that looks ahead.
use grok_auth_proxy.Prelude.{
  ◌+◌, ◌≡◌, refl, ◌∙◌, sym, ap, inl, inr, Bool, true, false, Option, none, some, List, [], ◌∷◌,
  ◌++◌, Bool-cases, leb, if◌then◌else◌, if_elim, if_elim_both, if_true, if_false,
}
use mathlib.Core.List.{append-nil, append_assoc}
use grok_auth_proxy.Clock.{Time}
use grok_auth_proxy.Auth.Manager.{Manager}
use grok_auth_proxy.Auth.Watch.{
  Input, notice, watch_error, stop, closed, debounce_delay, Watch, restarts, on_input, watch_step,
  fire_last, watch_loop,
}

module _ (m : Manager) where
  -- Up to the time `due`, no input restarts or stops the timer.
  abbrev pub is_quiet : Time → List (Time × Input) → Bool
  is_quiet due [] = true
  is_quiet due ((now, stop) ∷ inputs) = leb due now
  is_quiet due ((now, closed) ∷ inputs) = true
  is_quiet due ((now, watch_error) ∷ inputs) = if leb due now then true else is_quiet due inputs
  is_quiet due ((now, notice ev writing) ∷ inputs) =
      if leb due now
      then true
      else if restarts m (notice ev writing)
      then false
      else is_quiet due inputs

  -- A reload, if nothing intervenes until it is due.
  abbrev pub reload_at : Time → List (Time × Input) → List Time → List Time
  reload_at due inputs rest = if is_quiet due inputs then due ∷ rest else rest

  -- A reload runs 200 milliseconds after each change of the file that is the last one for that long, and
  -- that no stop follows in that time.
  abbrev pub expected : List (Time × Input) → List Time
  expected [] = []
  expected ((now, stop) ∷ inputs) = []
  expected ((now, closed) ∷ inputs) = []
  expected ((now, watch_error) ∷ inputs) = expected inputs
  expected ((now, notice ev writing) ∷ inputs) =
      let rest = expected inputs in
      if restarts m (notice ev writing) then reload_at (now + debounce_delay) inputs rest else rest

  abbrev pending : Option Time → List (Time × Input) → List Time
  pending none inputs = expected inputs
  pending (some due) inputs = reload_at due inputs (expected inputs)

  stopped_loop :
      (inputs : List (Time × Input)) (timer : Option Time) (seen : List Time)
      → (watch_loop m inputs (record { timer = timer; running = false; reloads = seen })).reloads
        ≡ (fire_last timer (record { timer = timer; running = false; reloads = seen })).reloads
  unfolding watch_loop watch_step
  stopped_loop [] timer seen = refl
  stopped_loop ((now, input) ∷ inputs) none seen = stopped_loop inputs none seen
  stopped_loop ((now, input) ∷ inputs) (some due) seen =
      if_elim (λ (w : Watch). (watch_loop m inputs w).reloads ≡ seen ++ due ∷ []) (leb due now)
        (λ _. stopped_loop inputs none (seen ++ due ∷ []))
        (λ _. stopped_loop inputs (some due) seen)

  -- The loop on these inputs gives the reloads that the description expects.
  abbrev IsExpected : List (Time × Input) → Option Time → List Time → Type 0
  IsExpected inputs timer seen =
      (watch_loop m inputs (record { timer = timer; running = true; reloads = seen })).reloads
      ≡ seen ++ pending timer inputs

  module _ (now : Time) (inputs : List (Time × Input))
      (rest : (timer : Option Time) (seen : List Time) → IsExpected inputs timer seen) where
    idle-IsExpected :
        (input : Input) (seen : List Time) → IsExpected ((now, input) ∷ inputs) none seen
    unfolding watch_loop watch_step on_input
    idle-IsExpected stop seen = stopped_loop inputs none seen ∙ sym (append-nil seen)
    idle-IsExpected closed seen = stopped_loop inputs none seen ∙ sym (append-nil seen)
    idle-IsExpected watch_error seen = rest none seen
    idle-IsExpected (notice ev writing) seen =
        if_elim_both (λ (w : Watch) (xs : List Time). (watch_loop m inputs w).reloads ≡ seen ++ xs)
          (restarts m (notice ev writing)) (λ _. rest (some (now + debounce_delay)) seen)
          (λ _. rest none seen)

    is_quiet_late :
        (due : Time) (input : Input)
        → leb due now ≡ true
        → is_quiet due ((now, input) ∷ inputs) ≡ true
    is_quiet_late due stop h = h
    is_quiet_late due closed h = refl
    is_quiet_late due watch_error h = rw h
    is_quiet_late due (notice ev writing) h = rw h

    late-IsExpected :
        (due : Time) (input : Input) (seen : List Time)
        → leb due now ≡ true
        → IsExpected ((now, input) ∷ inputs) (some due) seen
    unfolding watch_loop watch_step
    late-IsExpected due input seen h =
        let after : Watch → List Time =
          λ w. (watch_loop m inputs (on_input m now input w)).reloads in
        ap after (if_true (leb due now) _ _ h)
        ∙ idle-IsExpected input (seen ++ due ∷ [])
        ∙ append_assoc seen (due ∷ []) (expected ((now, input) ∷ inputs))
        ∙ ap (λ xs. seen ++ xs)
            (sym (if_true (is_quiet due ((now, input) ∷ inputs)) _ _ (is_quiet_late due input h)))

    changed :
        (due : Time) (seen : List Time) (change : Bool)
        → let later = now + debounce_delay in
          (watch_loop m inputs (
            if change
            then record { timer = some later; running = true; reloads = seen }
            else record { timer = some due; running = true; reloads = seen })).reloads
          ≡ seen
            ++ (let xs =
                  if change then reload_at later inputs (expected inputs) else expected inputs in
                if (if change then false else is_quiet due inputs) then due ∷ xs else xs)
    changed due seen true = rest (some (now + debounce_delay)) seen
    changed due seen false = rest (some due) seen

    received_early :
        (due : Time) (input : Input) (seen : List Time)
        → leb due now ≡ false
        → (watch_loop m inputs (
            on_input m now input
              (record { timer = some due; running = true; reloads = seen }))).reloads
          ≡ seen ++ pending (some due) ((now, input) ∷ inputs)
    unfolding on_input
    received_early due stop seen h = rw h (stopped_loop inputs none seen ∙ sym (append-nil seen))
    received_early due closed seen h = stopped_loop inputs (some due) seen
    received_early due watch_error seen h = rw h (rest (some due) seen)
    received_early due (notice ev writing) seen h =
        rw h (changed due seen (restarts m (notice ev writing)))

    early-IsExpected :
        (due : Time) (input : Input) (seen : List Time)
        → leb due now ≡ false
        → IsExpected ((now, input) ∷ inputs) (some due) seen
    unfolding watch_loop watch_step
    early-IsExpected due input seen h =
        let after : Watch → List Time =
          λ w. (watch_loop m inputs (on_input m now input w)).reloads in
        ap after (if_false (leb due now) _ _ h) ∙ received_early due input seen h

  pub loop-IsExpected :
      (inputs : List (Time × Input)) (timer : Option Time) (seen : List Time)
      → IsExpected inputs timer seen
  unfolding watch_loop
  loop-IsExpected [] none seen = sym (append-nil seen)
  loop-IsExpected [] (some due) seen = refl
  loop-IsExpected ((now, input) ∷ inputs) none seen =
      idle-IsExpected now inputs (loop-IsExpected inputs) input seen
  loop-IsExpected ((now, input) ∷ inputs) (some due) seen = elim (Bool-cases (leb due now)) [
    | inl late ↦ late-IsExpected now inputs (loop-IsExpected inputs) due input seen late
    | inr early ↦ early-IsExpected now inputs (loop-IsExpected inputs) due input seen early
  ]
