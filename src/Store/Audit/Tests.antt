-- ===== src/Store/Audit/Tests.antt =====
-- The audit log on a list of rows.
use grok_auth_proxy.Prelude.{
  ℕ, ◌+◌, ◌*◌, ◌≤◌, ◌≡◌, refl, true, false, none, some, List, [], ◌∷◌, ◌++◌, length,
}
use grok_auth_proxy.Prelude.Int.{pos, negsuc}
use grok_auth_proxy.Text.{codes, strings}
use grok_auth_proxy.Clock.{Time, second, zero_time, is_zero}
use grok_auth_proxy.Store.Text.{hex_encode, random_hex}
use grok_auth_proxy.Store.Audit.{
  AuditLog, IsReordered, complete, insert_audit_log_sync, get_audit_log,
}
use grok_auth_proxy.Store.Audit.Samples.{insert_log, list_audit_table}
use grok_auth_proxy.Store.Audit.Listing.{
  AuditListFilter, correct_limit, correct_offset, conditions, list_audit_logs,
}
use grok_auth_proxy.Store.Audit.Queue.{
  InsertEnv, start_audit_workers, write_row, offer, insert_audit_log, step_worker, step_at, Action,
  insert, work, stop, act, run, open_audit,
}
use grok_auth_proxy.Store.Audit.Queue.Accounted.{taken, settled, in_hand, run-IsReordered}
use grok_auth_proxy.Store.Audit.Queue.Drained.{drain_bounded}
use grok_auth_proxy.Store.Audit.Queue.Stored.{lost_rows}
use grok_auth_proxy.Store.Audit.Queue.Filled.{IsUsable}
use grok_auth_proxy.Store.Audit.Queue.Closed.{closed-IsReordered}

auditing : Unit {0}
unfolding strings hex_encode random_hex complete insert_audit_log_sync get_audit_log insert_log
    correct_limit correct_offset conditions list_audit_logs start_audit_workers write_row offer
    insert_audit_log step_worker step_at act run open_audit
auditing = tt

abbrev start : Time
start = 64_000_000_000 * second

abbrev env_at : ℕ → InsertEnv
env_at n = record { random = some (n ∷ []); now = start + n }

usable : (n : ℕ) → is_zero (start + n) ≡ false → IsUsable (env_at n)
usable n h = (λ bytes e. let same : n ∷ [] ≡ bytes = cc in rw⁻¹ same refl, h)

-- A row as the proxy hands it over.
abbrev row : ℕ → AuditLog
row status = record {
  id = [];
  created_at = zero_time;
  request_id = codes "r";
  api_key_id = codes "01";
  api_key_name = codes "first";
  api_key_prefix = codes "sk-gap-01";
  method = codes "POST";
  path = codes "/v1/responses";
  query = [];
  client_ip = codes "192.0.2.1";
  user_agent = [];
  status_code = pos status;
  latency_ms = pos 12;
  model = codes "grok";
  stream = false;
  request_body = [];
  response_body = [];
  request_truncated = false;
  response_truncated = false;
  error = [];
}

abbrev full_row : ℕ → ℕ → AuditLog
full_row n status = record (row status) { id = hex_encode (n ∷ []); created_at = start + n }

-- Two rows come in; one worker takes the first of them, the other one is stopped before it gets any.
abbrev before : List Action
before =
    insert (env_at 1) (some (row 200))
    ∷ insert (env_at 2) (some (row 502))
    ∷ insert (env_at 3) none
    ∷ work (env_at 9) false 0
    ∷ []

abbrev drain : List Action
drain =
    work (env_at 9) true 1
    ∷ work (env_at 9) false 0
    ∷ work (env_at 9) false 0
    ∷ work (env_at 9) false 1
    ∷ work (env_at 9) false 0
    ∷ work (env_at 9) true 0
    ∷ work (env_at 9) true 0
    ∷ []

drained :
    (run list_audit_table (before ++ stop ∷ drain) (open_audit list_audit_table [])).1.db
    ≡ full_row 1 200 ∷ full_row 2 502 ∷ []
unfolding auditing
drained = refl

run-IsReordered_example :
    let (ws, s) = run list_audit_table before (open_audit list_audit_table []) in
    (length s.queue ≤ 4096)
    × IsReordered (taken s.history) (settled s.history ++ s.queue ++ in_hand ws)
run-IsReordered_example = run-IsReordered list_audit_table before []

drain_bounded_example : length drain ≤ 8198
unfolding auditing
drain_bounded_example =
    drain_bounded list_audit_table before drain []
      (refl, (refl, (refl, (refl, (refl, (refl, (refl, tt)))))))

closed-IsReordered_example :
    let (ws, s) = run list_audit_table (before ++ stop ∷ drain) (open_audit list_audit_table []) in
    (s.queue ≡ []) × IsReordered (s.db ++ lost_rows s.history) ([] ++ taken s.history)
unfolding auditing
closed-IsReordered_example =
    closed-IsReordered list_audit_table before drain [] tt tt
      (usable 1 refl, (usable 2 refl, (usable 3 refl, tt))) refl

abbrev filled : List AuditLog
filled = full_row 1 200 ∷ full_row 2 502 ∷ full_row 3 500 ∷ []

-- Failures only, with a limit and an offset out of range.
abbrev failures : AuditListFilter
failures = record {
  api_key_id = [];
  path = codes "/v1/responses";
  model = [];
  status_min = some (pos 500);
  status_max = none;
  from = none;
  to = none;
  limit = pos 1000;
  offset = negsuc 4;
}
