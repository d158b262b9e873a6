-- ===== src/Auth/Select.antt =====
-- internal/auth/auth.go: selectEntry.
pub mod Laws
pub mod Account
use grok_auth_proxy.Prelude.{
  Bool, not, ◌||◌, Option, none, some, [], ◌∷◌, Result, ok, err, if◌then◌else◌,
}
use grok_auth_proxy.Text.{Str, ◌==◌, is_blank, contains}
use grok_auth_proxy.Clock.{after}
use grok_auth_proxy.Auth.Entry.{Entry, FileData}

pub data SelectError : Type 0 where
  account_not_found no_usable_entry : SelectError

abbrev pub names_account : Str → Str → Bool
names_account account k = k == account || contains k account

-- The loop over the entries for a configured account.
unfoldable pub find_account : Str → FileData → Result SelectError (Str × Entry)
find_account account [] = err account_not_found
find_account account ((k, e) ∷ fd) =
    if names_account account k then ok (k, e) else find_account account fd

-- One round of the loop that looks for the longest remaining lifetime; `none` is `!found`.
unfoldable pub better : Option (Str × Entry) → Str → Entry → Option (Str × Entry)
better cur k e = if is_blank e.key then cur else elim cur [
  | none ↦ some (k, e)
  | some (best_key, best) ↦
      if after e.expires_at best.expires_at then some (k, e) else some (best_key, best)
]

unfoldable pub best_from : Option (Str × Entry) → FileData → Option (Str × Entry)
best_from cur [] = cur
best_from cur ((k, e) ∷ fd) = best_from (better cur k e) fd

abbrev pub or_unusable : Option (Str × Entry) → Result SelectError (Str × Entry)
or_unusable none = err no_usable_entry
or_unusable (some p) = ok p

unfoldable pub select_entry : FileData → Str → Result SelectError (Str × Entry)
select_entry fd account =
    if not (account == []) then find_account account fd else or_unusable (best_from none fd)
