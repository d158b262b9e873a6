-- ===== src/Metrics.antt =====
-- internal/metrics/metrics.go: the gauges of the credentials, the counters, and the middleware.
-- A vector of prometheus is the list of its series with their counts; a histogram is counted by its
-- observations. The label of a status stays a number. Durations are counted in nanoseconds.
pub mod Series
pub mod Published
mod Tests
use grok_auth_proxy.Prelude.{
  ℕ, suc, ◌-◌, ◌/◌, Bool, ◌&&◌, List, [], ◌∷◌, ltb, eqb, is_empty, if◌then◌else◌,
}
use grok_auth_proxy.Prelude.Int.{ℤ, pos, negsuc}
use grok_auth_proxy.Text.{Str, codes, ◌==◌}
use grok_auth_proxy.Clock.{Time, second, is_zero}

-- The labels of a series: method and path, and a status that is 0 in the vectors that have none.
pub record Labels : Type 0 where
  pub method : Str
  pub path : Str
  pub status : ℕ

abbrev pub is_same : Labels → Labels → Bool
is_same a b = a.method == b.method && a.path == b.path && eqb a.status b.status

abbrev pub Vector : Type 0
Vector = List (Labels × ℕ)

-- WithLabelValues(…).Inc() and WithLabelValues(…).Observe(…)
unfoldable pub inc : Labels → Vector → Vector
inc k [] = (k, 1) ∷ []
inc k ((j, n) ∷ v) = if is_same j k then (j, suc n) ∷ v else (j, n) ∷ inc k v

-- Metrics; the refresh counter has a series for each of its two results.
pub record Metrics : Type 0 where
  pub requests : Vector
  pub latency : Vector
  pub token_expires_at : ℤ
  pub token_remaining : ℤ
  pub token_has_refresh : ℕ
  pub auth_ready : ℕ
  pub refresh_success : ℕ
  pub refresh_error : ℕ

-- New
unfoldable pub new_metrics : Metrics
new_metrics = record {
  requests = [];
  latency = [];
  token_expires_at = pos 0;
  token_remaining = pos 0;
  token_has_refresh = 0;
  auth_ready = 0;
  refresh_success = 0;
  refresh_error = 0;
}

-- t - u
abbrev pub difference : Time → Time → ℤ
difference t u = if ltb t u then negsuc (u - t - 1) else pos (t - u)

-- 1 January 1970
abbrev pub unix_epoch : ℕ
unix_epoch = 62_198_755_200

-- t.Unix(), in whole seconds
abbrev pub unix : Time → ℤ
unix t = difference (t / second) unix_epoch

abbrev pub gauge_of : Bool → ℕ
gauge_of b = if b then 1 else 0

-- SetAuthState
unfoldable pub set_auth_state :
    (ready : Bool) → Time → (has_refresh : Bool) → (now : Time) → Metrics → Metrics
set_auth_state ready expires_at has_refresh now m =
    let m' = record m { auth_ready = gauge_of ready; token_has_refresh = gauge_of has_refresh } in
    if is_zero expires_at
    then record m' { token_expires_at = pos 0; token_remaining = pos 0 }
    else record m' {
      token_expires_at = unix expires_at;
      token_remaining = difference expires_at now;
    }

-- IncAuthRefresh
unfoldable pub inc_auth_refresh : Bool → Metrics → Metrics
inc_auth_refresh success m =
    if success
    then record m { refresh_success = suc m.refresh_success }
    else record m { refresh_error = suc m.refresh_error }

abbrev pub unmatched_route : Str
unmatched_route = codes "unmatched"

-- A request as the middleware sees it once the handlers have run: `full_path` is the template of its
-- route, empty where no route matches.
pub record Seen : Type 0 where
  pub method : Str
  pub full_path : Str
  pub status : ℕ

abbrev pub path_label : Str → Str
path_label full_path = if is_empty full_path then unmatched_route else full_path

-- Middleware, past c.Next()
unfoldable pub observe : Seen → Metrics → Metrics
observe r m =
    let path = path_label r.full_path in
    record m {
      requests = inc (record { method = r.method; path = path; status = r.status }) m.requests;
      latency = inc (record { method = r.method; path = path; status = 0 }) m.latency;
    }

unfoldable pub observe_all : List Seen → Metrics → Metrics
observe_all [] m = m
observe_all (r ∷ rs) m = observe_all rs (observe r m)
