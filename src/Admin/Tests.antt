-- ===== src/Admin/Tests.antt =====
-- The handlers on a list of rows.
use grok_auth_proxy.Prelude.{◌*◌, ◌≡◌, refl, true, false, none, some, List, [], ◌∷◌, ok}
use grok_auth_proxy.Text.{Str, codes, strings}
use grok_auth_proxy.Clock.{Time, second}
use grok_auth_proxy.Assoc.{lookup, put, delete_if}
use grok_auth_proxy.Store.Text.{
  hex_encode, random_hex, generate_plaintext, display_prefix, lookup_hash,
}
use grok_auth_proxy.Store.Table.{ApiKey}
use grok_auth_proxy.Store.Table.Samples.{insert_row, list_table, plain_crypto}
use grok_auth_proxy.Store.Cache.{cache_get, cache_put, invalidate_cache_by_id, touch_cache}
use grok_auth_proxy.Store.Keys.{
  KeyStore, CreateEnv, new_key, insert_key, create_key, revoke_key, touch_last_used, used_at, admit,
  query_key, validate_plaintext,
}
use grok_auth_proxy.Store.Keys.Operations.{run_op, run_ops}
use grok_auth_proxy.Admin.{
  NewKeyView, created, revoked, bound, Bound, accepted, new_view, create_key_handler,
  revoke_key_handler,
}

handling : Unit {0}
unfolding strings lookup put delete_if hex_encode random_hex generate_plaintext display_prefix
    lookup_hash insert_row cache_get cache_put invalidate_cache_by_id touch_cache new_key insert_key
    create_key revoke_key touch_last_used admit query_key validate_plaintext run_op run_ops accepted
    new_view create_key_handler revoke_key_handler
handling = tt

abbrev start : Time
start = 64_000_000_000 * second

abbrev row_of : Str → Str → ApiKey
row_of id plaintext = record {
  id = id;
  name = codes "n";
  key_hash = plaintext;
  key_lookup = plaintext;
  key_prefix = plaintext;
  rate_limit_rps = none;
  enabled = true;
  created_at = start;
  last_used_at = none;
  revoked_at = none;
}

abbrev store_of : List ApiKey → KeyStore (List ApiKey)
store_of db = record { db = db; cache = []; pending = [] }

abbrev first : ApiKey
first = row_of (codes "01") (codes "sk-gap-01")

abbrev second_key : ApiKey
second_key = row_of (codes "02") (codes "sk-gap-02")

abbrev env : CreateEnv
env = record { random_key = some (1 ∷ []); salt = []; random_id = some (1 ∷ []); now = start }

abbrev body : Bound
body = bound (record { name = codes "n"; rate_limit_rps = none })

abbrev shown : NewKeyView
shown = record {
  id = codes "01";
  name = codes "n";
  key_prefix = codes "sk-gap-01";
  key = codes "sk-gap-01";
  rate_limit_rps = none;
  created_at = start;
  enabled = true;
}

created_lem :
    create_key_handler plain_crypto list_table env body false (store_of [])
    ≡ (created shown, store_of (first ∷ []))
unfolding handling
created_lem = refl

found_lem :
    list_table.first_active (lookup_hash plain_crypto shown.key) (first ∷ []) ≡ ok (some first)
unfolding handling
found_lem = refl

abbrev both : KeyStore (List ApiKey)
both = store_of (first ∷ second_key ∷ [])

abbrev out_store : KeyStore (List ApiKey)
out_store = (revoke_key_handler plain_crypto list_table (codes "01") start both).1

revoked_lem :
    revoke_key_handler plain_crypto list_table (codes "01") start both
    ≡ (revoked (codes "01"), out_store)
unfolding handling
revoked_lem = refl

validated_lem :
    (validate_plaintext plain_crypto list_table
      (codes "sk-gap-02")
      start
      start
      (run_ops plain_crypto list_table [] out_store)).0
    ≡ ok (used_at start second_key)
unfolding handling
validated_lem = refl
