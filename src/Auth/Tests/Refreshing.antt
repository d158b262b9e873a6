-- ===== src/Auth/Tests/Refreshing.antt =====
-- Refreshes and requests for a token, run on concrete answers.
use grok_auth_proxy.Prelude.{
  ◌+◌, ◌<◌, ◌≡◌, refl, true, false, Option, none, some, subst, if_elim, if◌then◌else◌, List, [],
  ◌∷◌, Result, ok, err, arith,
}
use grok_auth_proxy.Prelude.Int.{pos}
use grok_auth_proxy.Text.{Str, codes, is_blank, strings, trim_slashes, ◌==◌}
use grok_auth_proxy.Clock.{second}
use grok_auth_proxy.Auth.Entry.{
  FileData, first_non_empty, resolved_client_id, resolved_issuer, put, lookup, clone_file_data,
  sanitize_err_body,
}
use grok_auth_proxy.Auth.Manager.{
  AuthError, request_failed, no_access_token, Manager, Event, TokenResponse, publish_metrics,
  JsonLib, Options, new_manager, fresh, materialise, finish, load_map, adopt, load_bytes,
}
use grok_auth_proxy.Auth.Refresh.{
  answered, failed, RefreshEnv, discovered, discover, discover_token_endpoint, checked_token,
  read_token, new_expiry, new_entry, store_back, install, exchange, exchange_at, refresh,
  do_refresh,
}
use grok_auth_proxy.Auth.Refresh.Effects.{with_endpoint, OnlyRequests}
use grok_auth_proxy.Auth.Refresh.Failure.{refresh_failure_keeps}
use grok_auth_proxy.Auth.Refresh.Expiry.{new_expiry_overflow}
use grok_auth_proxy.Auth.Token.{TokenEnv, after_refresh, get_access_token}
use grok_auth_proxy.Auth.Token.Validity.{IsGranted, get_access_token-IsGranted}
use grok_auth_proxy.Auth.Token.Lockout.{blank_token_locks_out}
use grok_auth_proxy.Auth.Consistency.{IsConsistent}
use grok_auth_proxy.Auth.Lifetime.{
  Op, reload_file, ask, force, tick, settle_write, run_ops, run_ops-IsConsistent,
}
use grok_auth_proxy.Auth.Entry.Laws.{IsMap}
use grok_auth_proxy.Auth.Select.{select_entry, best_from, better}
use grok_auth_proxy.Auth.Samples.{
  start, early, late, single, sample_options, token_for, sample_json, env_at, manager_of,
}

refreshing : Unit {0}
unfolding strings first_non_empty resolved_client_id resolved_issuer put lookup clone_file_data
    sanitize_err_body publish_metrics discovered discover discover_token_endpoint checked_token
    read_token new_expiry new_entry store_back install exchange exchange_at refresh do_refresh
    after_refresh get_access_token sample_json
refreshing = tt

abbrev m : Manager
m = manager_of early

abbrev failing : RefreshEnv
failing = env_at start failed

abbrev failure : Result AuthError (Unit {0}) × Manager × List Event
failure = refresh sample_json failing true m

failure_lem : failure ≡ (err request_failed, failure.1, failure.2)
unfolding refreshing
failure_lem = refl

refresh_failure_keeps_example :
    (failure.1 ≡ with_endpoint m failure.1.token_endpoint) × OnlyRequests failure.2
refresh_failure_keeps_example =
    refresh_failure_keeps sample_json failing true m failure.1 request_failed failure.2 failure_lem

abbrev succeeding : RefreshEnv
succeeding = env_at start (answered 200 (codes "T"))

abbrev success : Result AuthError (Unit {0}) × Manager × List Event
success = refresh sample_json succeeding false m

abbrev waiting : List RefreshEnv
waiting = succeeding ∷ failing ∷ []

new_expiry_overflow_example : new_expiry start (pos 10_000_000_000) < start
new_expiry_overflow_example =
    new_expiry_overflow start 10_000_000_000 (omega arith) (omega arith) (omega arith)

abbrev tr : TokenResponse
tr = token_for (pos 3600) (codes "k9")

abbrev reloaded : Manager
reloaded = record (manager_of late) { map_key = codes "ab" }

abbrev overtaken : Manager
overtaken = (install succeeding tr (codes "a") early reloaded).0

abbrev mixed : Manager
mixed = (install failing tr overtaken.map_key overtaken.entry overtaken).0

abbrev asking : RefreshEnv → TokenEnv
asking env = record { now_check = start; refresh = env; now_fallback = start + second }

abbrev fallback : Result AuthError Str × Manager × List Event
fallback = get_access_token sample_json (asking failing) m

fallback_lem : fallback ≡ (ok (codes "k1"), fallback.1, fallback.2)
unfolding refreshing
fallback_lem = refl

get_access_token-IsGranted_example :
    IsGranted sample_json (asking failing) m (codes "k1") fallback.1
get_access_token-IsGranted_example =
    get_access_token-IsGranted sample_json (asking failing) m fallback.1 (codes "k1") fallback.2
      fallback_lem

abbrev one_file : JsonLib
one_file = record sample_json { file_data = λ raw. if raw == codes "S" then some single else none }

one_file-IsMap : (raw : Str) (fd : FileData) → one_file.file_data raw ≡ some fd → IsMap fd
one_file-IsMap raw fd =
    if_elim (λ (x : Option FileData). x ≡ some fd → IsMap fd) (raw == codes "S")
      (λ _ h. let same : single ≡ fd = cc in subst IsMap same (λ k. elim k [ ], tt))
      (λ _ h. absurd (cc))

abbrev stored_options : Options
stored_options = record sample_options { initial_data = codes "S" }

abbrev begun : Result AuthError Manager × List Event
begun = new_manager one_file stored_options true none

abbrev m₀ : Manager
m₀ = record (manager_of early) { has_metrics = false; issuer = codes "https://auth.x.ai" }

begun_lem : begun ≡ (ok m₀, begun.1)
unfolding refreshing fresh trim_slashes materialise finish new_manager load_map adopt load_bytes
    select_entry best_from better
begun_lem = refl

abbrev asked : List Op
asked =
    ask (asking failing)
    ∷ reload_file none
    ∷ force succeeding
    ∷ reload_file (some (codes "S"))
    ∷ settle_write
    ∷ tick start failing
    ∷ []

run_ops-IsConsistent_example : IsConsistent (run_ops one_file asked m₀)
run_ops-IsConsistent_example =
    run_ops-IsConsistent one_file stored_options true none m₀ begun.1 asked one_file-IsMap begun_lem

abbrev blanking : RefreshEnv
blanking = env_at start (answered 200 (codes "W"))

abbrev blanked : Result AuthError (Unit {0}) × Manager × List Event
blanked = refresh sample_json blanking true m

blanked_lem :
    (blanked ≡ (ok tt, blanked.1, blanked.2))
    × (read_token sample_json blanking.token ≡ ok (token_for (pos 3600) (codes " ")))
    × (is_blank (codes " ") ≡ true)
unfolding refreshing
blanked_lem = (refl, refl, refl)

blank_token_locks_out_example :
    get_access_token sample_json (asking succeeding) blanked.1
    ≡ (err no_access_token, blanked.1, [])
blank_token_locks_out_example =
    blank_token_locks_out sample_json blanking m blanked.1 blanked.2
      (token_for (pos 3600) (codes " ")) (asking succeeding) blanked_lem.0 blanked_lem.1
      blanked_lem.2
