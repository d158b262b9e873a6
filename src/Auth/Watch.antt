-- ===== src/Auth/Watch.antt =====
-- internal/auth/auth.go: the loop that watches the file of the credentials, with its timer.
-- The loop reads a row of inputs, each with the time at which it comes. The timer of the reload runs
-- on its own: when it is due at or before the time of the next input, it has fired by then.
pub mod Debounced
pub mod Settled
mod Tests
use grok_auth_proxy.Prelude.{
  ℕ, ◌+◌, ◌*◌, Bool, true, false, Option, none, some, List, [], ◌∷◌, ◌++◌, is_empty, leb, eqb,
  if◌then◌else◌,
}
use grok_auth_proxy.Text.{Str, ◌==◌, trim_slashes}
use grok_auth_proxy.Clock.{Time}
use grok_auth_proxy.Auth.Manager.{Manager}
use grok_auth_proxy.Auth.Token.{schedules_reload}

-- What is left after the last slash.
abbrev last_segment : Str → Str → Str
last_segment seen [] = seen
last_segment seen (b ∷ s) =
    if eqb b b'/' then last_segment [] s else last_segment (seen ++ b ∷ []) s

-- filepath.Base
unfoldable pub base : Str → Str
base path =
    let trimmed = trim_slashes path in
    if is_empty path
    then b'.' ∷ []
    else if is_empty trimmed
    then b'/' ∷ []
    else last_segment [] trimmed

-- fsnotify.Event
pub record Notice : Type 0 where
  pub name : Str
  pub create : Bool
  pub write : Bool
  pub remove : Bool
  pub rename : Bool
  pub chmod : Bool

-- One round of the loop: an event, with the flag `writing` as the loop reads it; an error of the watcher;
-- the stop channel; or a channel of the watcher that is closed.
pub data Input : Type 0 where
  notice : Notice → (writing : Bool) → Input
  watch_error stop closed : Input

abbrev pub debounce_delay : ℕ
debounce_delay = 200 * 1_000_000

-- The loop: when the timer is due, whether the loop is running, and when reloads have run.
pub record Watch : Type 0 where
  pub timer : Option Time
  pub running : Bool
  pub reloads : List Time

unfoldable pub start_watch : Watch
start_watch = record { timer = none; running = true; reloads = [] }

-- Whether an input starts the timer.
unfoldable pub restarts : Manager → Input → Bool
restarts m (notice ev writing) =
    schedules_reload (record m { writing = writing })
      (record {
        is_auth_file = base ev.name == base m.path;
        write = ev.write;
        create = ev.create;
        rename = ev.rename;
      })
restarts m _ = false

-- The timer fires, if it is due.
abbrev pub fire : Option Time → Time → Watch → Watch
fire none now w = w
fire (some due) now w =
    if leb due now then record w { timer = none; reloads = w.reloads ++ due ∷ [] } else w

-- The cases of the select.
unfoldable pub on_input : Manager → Time → Input → Watch → Watch
on_input m now stop w = record w { timer = none; running = false }
on_input m now closed w = record w { running = false }
on_input m now watch_error w = w
on_input m now (notice ev writing) w =
    if restarts m (notice ev writing) then record w { timer = some (now + debounce_delay) } else w

-- watchLoop: one input.
unfoldable pub watch_step : Manager → Time → Input → Watch → Watch
watch_step m now input w =
    let w' = fire w.timer now w in if w.running then on_input m now input w' else w'

-- The timer that is left fires in the end.
abbrev pub fire_last : Option Time → Watch → Watch
fire_last none w = w
fire_last (some due) w = record w { timer = none; reloads = w.reloads ++ due ∷ [] }

-- watchLoop on all of its inputs.
unfoldable pub watch_loop : Manager → List (Time × Input) → Watch → Watch
watch_loop m [] w = fire_last w.timer w
watch_loop m ((now, input) ∷ inputs) w = watch_loop m inputs (watch_step m now input w)
