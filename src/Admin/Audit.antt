-- ===== src/Admin/Audit.antt =====
-- internal/handlers/admin/admin.go: the handlers for the audit log.
-- Query parameters are a function from names to texts, empty where the parameter is missing; the
-- parser of RFC 3339 times, of package time, is a parameter.
pub mod Echo
mod Tests
use grok_auth_proxy.Prelude.{
  ℕ, ◌+◌, ◌-◌, ◌*◌, ◌^◌, zero, suc, Bool, true, false, ◌&&◌, Option, none, some, List, [], ◌∷◌,
  Result, ok, err, is_empty, leb, ltb, eqb, if◌then◌else◌,
}
use grok_auth_proxy.Prelude.Int.{ℤ, pos, negsuc}
use grok_auth_proxy.Text.{Str, codes}
use grok_auth_proxy.Clock.{Time}
use grok_auth_proxy.Store.Table.{StoreError}
use grok_auth_proxy.Store.Audit.{AuditLog}
use grok_auth_proxy.Store.Audit.Listing.{AuditListFilter}
use grok_auth_proxy.Admin.{is_not_found}

pub data AuditMessage : Type 0 where
  invalid_from invalid_to list_audit_failed missing_id audit_not_found get_audit_failed :
      AuditMessage

pub data AuditAnswer : Type 0 where
  audit_failure : (status : ℕ) → AuditMessage → AuditAnswer
  audit_page : (total : ℕ) (limit offset : ℤ) (items : List AuditLog) → AuditAnswer
  audit_row : AuditLog → AuditAnswer

-- The number that the digits make, `none` for another byte.
abbrev digits : ℕ → Str → Option ℕ
digits n [] = some n
digits n (b ∷ s) =
    let rest = digits (10 * n + (b - b'0')) s in if leb b'0' b && leb b b'9' then rest else none

abbrev unsigned : Str → Option ℕ
unsigned [] = none
unsigned (b ∷ s) = digits 0 (b ∷ s)

-- -n
abbrev pub negated : ℕ → ℤ
negated zero = pos zero
negated (suc n) = negsuc n

abbrev in_range : (is_negative : Bool) → Option ℕ → Option ℤ
in_range is_negative none = none
in_range true (some n) = if leb n (2 ^ 63) then some (negated n) else none
in_range false (some n) = if ltb n (2 ^ 63) then some (pos n) else none

-- strconv.Atoi, `none` for an error
unfoldable pub atoi : Str → Option ℤ
atoi [] = none
atoi (b ∷ s) =
    if eqb b b'-'
    then in_range true (unsigned s)
    else if eqb b b'+'
    then in_range false (unsigned s)
    else in_range false (unsigned (b ∷ s))

abbrev pub given : ℤ → Option ℤ → ℤ
given default none = default
given default (some n) = n

-- A number that keeps its default where the parameter is missing or no number.
abbrev pub number : ℤ → Str → ℤ
number default v = if is_empty v then default else given default (atoi v)

abbrev pub bound_of : Str → Option ℤ
bound_of v = if is_empty v then none else atoi v

abbrev pub given_time : Option Time → Option (Option Time)
given_time none = none
given_time (some t) = some (some t)

module _ (parse : Str → Option Time) where
  -- A time: missing, or parsed; `none` for an error.
  abbrev pub time_of : Str → Option (Option Time)
  time_of v = if is_empty v then some none else given_time (parse v)

  -- The filter of ListAudit before its times.
  abbrev pub filter_of : (Str → Str) → (from to : Option Time) → AuditListFilter
  filter_of query from to = record {
    api_key_id = query (codes "api_key_id");
    path = query (codes "path");
    model = query (codes "model");
    status_min = bound_of (query (codes "status_min"));
    status_max = bound_of (query (codes "status_max"));
    from = from;
    to = to;
    limit = number (pos 50) (query (codes "limit"));
    offset = number (pos 0) (query (codes "offset"));
  }

  abbrev pub list_answer : AuditListFilter → Result StoreError (List AuditLog × ℕ) → AuditAnswer
  list_answer f (err e) = audit_failure 500 list_audit_failed
  list_answer f (ok (rows, total)) = audit_page total f.limit f.offset rows

  -- ListAudit, once the times are parsed.
  abbrev pub list_with_times :
      (AuditListFilter → Result StoreError (List AuditLog × ℕ))
      → (Str → Str)
      → (from to : Option (Option Time)) → AuditAnswer
  list_with_times list query none to = audit_failure 400 invalid_from
  list_with_times list query (some from) none = audit_failure 400 invalid_to
  list_with_times list query (some from) (some to) =
      list_answer (filter_of query from to) (list (filter_of query from to))

  -- ListAudit; `list` is Store.ListAuditLogs.
  unfoldable pub list_audit_handler :
      (AuditListFilter → Result StoreError (List AuditLog × ℕ)) → (Str → Str) → AuditAnswer
  list_audit_handler list query =
      list_with_times list query (time_of (query (codes "from"))) (time_of (query (codes "to")))

abbrev pub row_answer : Result StoreError AuditLog → AuditAnswer
row_answer (ok row) = audit_row row
row_answer (err e) =
    if is_not_found e then audit_failure 404 audit_not_found else audit_failure 500 get_audit_failed

-- GetAudit; `get` is Store.GetAuditLog.
unfoldable pub get_audit_handler : (Str → Result StoreError AuditLog) → (id : Str) → AuditAnswer
get_audit_handler get id = if is_empty id then audit_failure 400 missing_id else row_answer (get id)
