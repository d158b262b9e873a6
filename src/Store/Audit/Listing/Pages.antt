-- ===== src/Store/Audit/Listing/Pages.antt =====
-- internal/store/store.go: what ListAuditLogs answers, against a filter that is read field by field.
use grok_auth_proxy.Prelude.{
  ℕ, ◌-◌, ◌≤◌, ◌≡◌, min, Bool, true, ◌&&◌, ◌||◌, Option, none, some, List, is_empty, length, leb,
  keep,
}
use grok_auth_proxy.Prelude.Int.{pos_part, int_leb}
use grok_auth_proxy.Text.{◌==◌}
use grok_auth_proxy.Store.Table.{count_if}
use grok_auth_proxy.Store.Audit.{AuditLog, IsDescending}
use grok_auth_proxy.Store.Audit.Listing.{AuditListFilter, correct_limit, correct_offset}

-- A bound that is not given admits every value.
abbrev admits : {A : Type 0} → (A → Bool) → Option A → Bool
admits test none = true
admits test (some a) = test a

-- The rows that a filter asks for.
abbrev pub matches : AuditListFilter → AuditLog → Bool
matches f r =
    (is_empty f.api_key_id || r.api_key_id == f.api_key_id)
    && (is_empty f.path || r.path == f.path)
    && (is_empty f.model || r.model == f.model)
    && admits (λ n. int_leb n r.status_code) f.status_min
    && admits (λ n. int_leb r.status_code n) f.status_max
    && admits (λ t. leb t r.created_at) f.from
    && admits (λ t. leb r.created_at t) f.to

-- What a page promises: the total counts the rows that the filter asks for; the page holds as many
-- of them as there are past the offset, up to the limit, which lies between 1 and 500; the newest
-- come first, and no row comes more often than it is in the table.
abbrev pub IsPage : AuditListFilter → List AuditLog → List AuditLog × ℕ → Type 0
IsPage f table (rows, total) =
    (total ≡ count_if (matches f) table)
    × (length rows
        ≡ min (pos_part (correct_limit f.limit)) (total - pos_part (correct_offset f.offset)))
    × (1 ≤ pos_part (correct_limit f.limit))
    × (pos_part (correct_limit f.limit) ≤ 500)
    × IsDescending rows
    × ((p : AuditLog → Bool) → count_if p rows ≤ count_if p (keep (matches f) table))
