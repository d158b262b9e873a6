-- ===== src/Admin/Audit/Echo.antt =====
-- internal/handlers/admin/admin.go with internal/store/store.go: the page that ListAudit answers.
use grok_auth_proxy.Prelude.{ℕ, ◌≡◌, Option, some, List, Result, ok}
use grok_auth_proxy.Prelude.Int.{ℤ, pos}
use grok_auth_proxy.Text.{Str, codes}
use grok_auth_proxy.Clock.{Time}
use grok_auth_proxy.Store.Table.{StoreError}
use grok_auth_proxy.Store.Audit.{AuditLog}
use grok_auth_proxy.Store.Audit.Listing.{AuditListFilter}
use grok_auth_proxy.Admin.Audit.{number, filter_of}

module _ (parse : Str → Option Time)
    (list : AuditListFilter → Result StoreError (List AuditLog × ℕ)) (query : Str → Str) where
  abbrev IsAnswered :
      (from to : Option (Option Time)) (total : ℕ) (limit offset : ℤ) (items : List AuditLog)
      → Type 0
  IsAnswered from to total limit offset items =
      (f : Option Time) × (t : Option Time) × (from ≡ some f)
      × (to ≡ some t)
      × (list (filter_of parse query f t) ≡ ok (items, total))
      × (limit ≡ number (pos 50) (query (codes "limit")))
      × (offset ≡ number (pos 0) (query (codes "offset")))
