-- ===== src/Store/Tests.antt =====
-- The store on a list of rows.
use grok_auth_proxy.Prelude.{
  ℕ, ◌+◌, ◌*◌, ◌≤◌, ◌≡◌, refl, true, false, none, some, List, [], ◌∷◌, ◌++◌, ok, arith,
}
use grok_auth_proxy.Text.{Str, codes, ◌==◌, strings}
use grok_auth_proxy.Clock.{Time, second, zero_time}
use grok_auth_proxy.Assoc.{lookup, put, delete_if}
use grok_auth_proxy.Store.Text.{
  key_prefix, hex_encode, random_hex, generate_plaintext, display_prefix, lookup_hash,
}
use grok_auth_proxy.Store.Table.{ApiKey}
use grok_auth_proxy.Store.Table.Samples.{insert_row, list_table, plain_crypto}
use grok_auth_proxy.Store.Cache.{
  key_cache_ttl, cache_get, cache_put, invalidate_cache_by_id, touch_cache,
}
use grok_auth_proxy.Store.Keys.{
  KeyStore, CreateKeyResult, CreateEnv, new_key, insert_key, create_key, revoke_key,
  touch_last_used, run_pending, used_at, admit, query_key, validate_plaintext,
}
use grok_auth_proxy.Store.Keys.Created.{create-validate}
use grok_auth_proxy.Store.Keys.Operations.{Op, create, validate, write_last_used, run_op, run_ops}
use grok_auth_proxy.Store.Keys.Revoked.{revoke-validate}
use grok_auth_proxy.Store.Interleaved.{Running, query, put_row, Run, done, more, started}
use grok_auth_proxy.Store.Interleaved.Staleness.{revoked_within_ttl}

storing : Unit {0}
unfolding strings lookup put delete_if hex_encode random_hex generate_plaintext display_prefix
    lookup_hash insert_row cache_get cache_put invalidate_cache_by_id touch_cache new_key insert_key
    create_key revoke_key touch_last_used run_pending admit query_key validate_plaintext run_op
    run_ops
storing = tt

abbrev six : List ℕ
six = 0 ∷ 1 ∷ 2 ∷ 3 ∷ 4 ∷ 255 ∷ []

abbrev others : List ℕ
others =
    0 ∷ 0 ∷ 0 ∷ 0 ∷ 0 ∷ 0 ∷ 0 ∷ 0 ∷ 0 ∷ 0 ∷ 0 ∷ 0 ∷ 0 ∷ 0 ∷ 0 ∷ 0 ∷ 0 ∷ 0 ∷ 0 ∷ 0 ∷ 0 ∷ 0 ∷ 0 ∷ 0
    ∷ 0 ∷ 0 ∷ []

abbrev generated : Str
generated = key_prefix ++ hex_encode (six ++ others)

generated_lem : generate_plaintext (some (six ++ others)) ≡ some generated
unfolding generate_plaintext random_hex
generated_lem = refl

abbrev empty_store : KeyStore (List ApiKey)
empty_store = record { db = []; cache = []; pending = [] }

abbrev start : Time
start = 64_000_000_000 * second

abbrev env_at : ℕ → CreateEnv
env_at n = record { random_key = some (n ∷ []); salt = []; random_id = some (n ∷ []); now = start }

abbrev row : ApiKey
row = record {
  id = codes "01";
  name = codes "first";
  key_hash = codes "sk-gap-01";
  key_lookup = codes "sk-gap-01";
  key_prefix = codes "sk-gap-01";
  rate_limit_rps = none;
  enabled = true;
  created_at = start;
  last_used_at = none;
  revoked_at = none;
}

abbrev with_row : KeyStore (List ApiKey)
with_row = record empty_store { db = row ∷ [] }

abbrev created : CreateKeyResult
created = record { key = row; plaintext = codes "sk-gap-01" }

created_lem :
    create_key plain_crypto list_table (env_at 1) (codes "first") none empty_store
    ≡ (ok created, with_row)
unfolding storing
created_lem = refl

found_lem :
    list_table.first_active (lookup_hash plain_crypto created.plaintext) with_row.db ≡ ok (some row)
unfolding storing
found_lem = refl

create-validate_example :
    (validate_plaintext plain_crypto list_table
      (codes "sk-gap-01")
      (start + 5)
      (start + 6)
      with_row).0
    ≡ ok (used_at (start + 5) row)
create-validate_example =
    create-validate plain_crypto list_table (env_at 1) (codes "first") none empty_store with_row
      created (some row) (start + 5) (start + 6) created_lem found_lem (unfold lookup in refl)

-- The key is cached, revoked, and then another key is created and validated.
abbrev cached : KeyStore (List ApiKey)
cached = (validate_plaintext plain_crypto list_table (codes "sk-gap-01") start start with_row).1

abbrev out_store : KeyStore (List ApiKey)
out_store = (revoke_key plain_crypto list_table (codes "01") start cached).1

revoked_lem : revoke_key plain_crypto list_table (codes "01") start cached ≡ (ok tt, out_store)
unfolding storing
revoked_lem = refl

abbrev later_ops : List Op
later_ops =
    write_last_used
    ∷ create (env_at 2) (codes "second") none
    ∷ validate (codes "sk-gap-01") start start
    ∷ []

other_id : (x : Str) → random_hex (some (2 ∷ [])) ≡ some x → (x == codes "01") ≡ false
unfolding storing
other_id x h = let same : codes "02" ≡ x = cc in rw (← same) refl

abbrev key_two : ApiKey
key_two = record row {
  id = codes "02";
  name = codes "second";
  key_hash = codes "sk-gap-02";
  key_lookup = codes "sk-gap-02";
  key_prefix = codes "sk-gap-02";
}

validated_lem :
    (validate_plaintext plain_crypto list_table
      (codes "sk-gap-02")
      start
      start
      (run_ops plain_crypto list_table later_ops out_store)).0
    ≡ ok (used_at start key_two)
unfolding storing
validated_lem = refl

revoke-validate_example : (codes "02" == codes "01") ≡ false
revoke-validate_example =
    revoke-validate plain_crypto list_table (codes "01") start cached out_store later_ops
      (codes "sk-gap-02") start start (used_at start key_two) revoked_lem (other_id, tt)
      validated_lem

-- A validation reads its row, the key is revoked, and only then the validation puts the row into the
-- cache; a second later it is still there.
abbrev reading : Running (List ApiKey)
reading = record {
  db = row ∷ [];
  cache = [];
  flights = record { lookup = codes "sk-gap-01"; rec = row; now = start } ∷ [];
  clock = start;
}

abbrev gone : List ApiKey
gone = record row { enabled = false; revoked_at = some start } ∷ []

abbrev late : Running (List ApiKey)
late = record {
  db = gone;
  cache = cache_put (codes "sk-gap-01") row start [];
  flights = [];
  clock = start;
}

before-Run :
    Run plain_crypto list_table
      (codes "01")
      (started plain_crypto list_table (row ∷ []) start)
      reading
unfolding storing
before-Run =
    more _ _ _ (done _)
      (query (started plain_crypto list_table (row ∷ []) start) (codes "sk-gap-01") row start
        (omega arith) refl refl)
      tt

gone_lem : list_table.revoke (codes "01") start (row ∷ []) ≡ ok (1, gone)
unfolding storing
gone_lem = refl

after-Run : Run plain_crypto list_table (codes "01") (record reading { db = gone }) late
after-Run =
    more _ _ _ (done _)
      (put_row (record reading { db = gone }) [] []
        (record { lookup = codes "sk-gap-01"; rec = row; now = start }) refl)
      tt

still_there :
    (cache_get (codes "sk-gap-01") (start + second) late.cache).0
    ≡ some (record { key = row; expires_at = start + 30 * second; last_used = zero_time })
unfolding storing
still_there = refl

still_named : (row.id == codes "01") ≡ true
unfolding storing
still_named = refl

revoked_within_ttl_example : start + second ≤ start + key_cache_ttl
revoked_within_ttl_example =
    revoked_within_ttl plain_crypto list_table (codes "01") (row ∷ []) gone start start 1 reading
      late (codes "sk-gap-01") (start + second)
      (record { key = row; expires_at = start + 30 * second; last_used = zero_time }) before-Run
      gone_lem after-Run still_there still_named
