-- ===== src/Boot/Restart.antt =====
-- cmd/proxy/main.go: where the credentials of a start come from.
use grok_auth_proxy.Prelude.{
  ◌≡◌, refl, sym, ap, subst, ◌∙◌, inl, inr, Bool, false, not, Option, none, some, List, [], Result,
  ok, err, is_empty, Bool-cases, if_elim, if_false, if_true,
}
use grok_auth_proxy.Text.{Str, ◌==◌}
use grok_auth_proxy.Clock.{Time}
use grok_auth_proxy.Auth.Entry.{FileData}
use grok_auth_proxy.Auth.Select.{select_entry}
use grok_auth_proxy.Auth.Manager.{
  AuthError, Event, JsonLib, Manager, Options, load_bytes, fresh, materialise, finish, new_manager,
}
use grok_auth_proxy.Auth.Manager.Loading.{load_bytes_atomic}
use grok_auth_proxy.Config.{Config}
use grok_auth_proxy.Store.State.{
  AuthState, auth_state_default_id, StateTable, save_auth_state, loaded_state, load_auth_state,
}
use grok_auth_proxy.Boot.{
  BootError, initial_of, options_of, or_same, seed, Booted, with_credentials, boot_auth,
}

-- The manager holds the map that the bytes stand for, and the entry that is chosen from it.
abbrev pub Holds : JsonLib → Str → Str → Manager → Type 0
Holds json raw account m =
    (m.file_data ≡ json.file_data raw)
    × ((fd : FileData) × (m.file_data ≡ some fd)
        × (select_entry fd account ≡ ok (m.map_key, m.entry)))

abbrev IsMade : JsonLib → Str → Str → Result AuthError Manager × List Event → Type 0
IsMade json raw account (err e, events) = Unit
IsMade json raw account (ok m, events) = Holds json raw account m

finished-IsMade :
    (json : JsonLib) (raw : Str) (opts : Options) (writable : Bool) (write : Manager → List Event)
    → IsMade json raw opts.account (finish (load_bytes json raw (fresh opts writable)) write)
unfolding finish fresh
finished-IsMade json raw opts writable write =
    elim (load_bytes_atomic json raw (fresh opts writable)) [
      | inl (e, failed) ↦ subst (λ r. IsMade json raw opts.account (finish r write)) (sym failed) tt
      | inr (m', loaded_state, h) ↦
          subst (λ r. IsMade json raw opts.account (finish r write)) (sym loaded_state)
            (h.file_data, h.selected)
    ]

new_manager-IsMade :
    (json : JsonLib) (opts : Options) (writable : Bool) (file : Option Str)
    → is_empty opts.initial_data ≡ false
    → IsMade json opts.initial_data opts.account (new_manager json opts writable file)
unfolding new_manager
new_manager-IsMade json opts writable file given =
    if_elim (IsMade json opts.initial_data opts.account) (opts.path == []) (λ _. tt)
      (λ _.
        if_elim (IsMade json opts.initial_data opts.account) (not (is_empty opts.initial_data))
          (λ _. finished-IsMade json opts.initial_data opts writable materialise)
          (λ e. absurd (cc (rw given at e))))

module _ (table : StateTable) (json : JsonLib) (c : Config) (writable : Bool)
    (file file_after : Option Str) (now : Time) where
  open table use {Db}

  with_credentials-Holds :
      (raw : Str) (db : Db) (r : Result AuthError Manager × List Event) (b : Booted table)
      → is_empty raw ≡ false
      → IsMade json raw c.auth.account r
      → with_credentials table raw file_after now db r ≡ ok b
      → Holds json raw c.auth.account b.manager × (b.db ≡ db)
  unfolding seed
  with_credentials-Holds raw db (err e, events) b given made h = absurd (cc)
  with_credentials-Holds raw db (ok m, events) b given made h =
      let booted : record { manager = m; db = seed table raw file_after now db; events = events }
          ≡ b =
        cc in
      let kept : seed table raw file_after now db ≡ db = seed_given file_after in
      subst (λ (x : Booted table). Holds json raw c.auth.account x.manager × (x.db ≡ db)) booted
        (made, kept)
    where
      seed_given : (f : Option Str) → seed table raw f now db ≡ db
      seed_given none = refl
      seed_given (some text) = if_true (not (is_empty raw)) _ _ (ap not given)

  initial_saved :
      (payload : Str) (at : Time) (db db' : Db) (o : Option AuthState)
      → save_auth_state table payload at db ≡ ok db'
      → table.first auth_state_default_id db' ≡ ok o
      → (is_empty payload ≡ false) × (initial_of (load_auth_state table db') ≡ payload)
  unfolding save_auth_state load_auth_state
  initial_saved payload at db db' o saved found = elim (Bool-cases (is_empty payload)) [
    | inl empty ↦ absurd (cc (rw empty at saved))
    | inr given ↦
        let rec : AuthState = record {
          id = auth_state_default_id;
          payload = payload;
          updated_at = at;
        } in
        let stored : table.state db' ≡ some rec =
          table.save_state rec db db' refl (rw given at saved) in
        let whole : table.first auth_state_default_id db' ≡ ok (some rec) =
          found ∙ ap ok (table.first_state db' o found ∙ stored) in
        (given, ap (λ r. initial_of (loaded_state table r)) whole)
  ]

-- The credentials that were persisted last are those of the next start: once a payload has been saved,
-- a start that can read the row and that succeeds holds the map that the payload decodes to, and
-- an entry chosen from it, whatever the credentials' file holds by then, and it leaves the database as
-- it is. So a refresh token that was rotated is not lost with the file, and a file that was changed and
-- reloaded since then is not taken up.
pub persisted_restored :
    (table : StateTable) (json : JsonLib) (c : Config) (writable : Bool)
    (file file_after : Option Str) (at now : Time) (payload : Str) (db db' : table.Db)
    (o : Option AuthState) (b : Booted table)
    → save_auth_state table payload at db ≡ ok db'
    → table.first auth_state_default_id db' ≡ ok o
    → boot_auth table json c writable file file_after now db' ≡ ok b
    → Holds json payload c.auth.account b.manager × (b.db ≡ db')
unfolding boot_auth
persisted_restored table json c writable file file_after at now payload db db' o b saved found
      booted =
    let (given, same) =
      initial_saved table json c writable file file_after now payload at db db' o saved found in
    let started_from : Str → Result BootError (Booted table) = λ p.
      with_credentials table p file_after now db'
        (new_manager json (options_of c p) writable file) in
    with_credentials-Holds table json c writable file file_after now payload db'
      (new_manager json (options_of c payload) writable file) b given
      (new_manager-IsMade json (options_of c payload) writable file given)
      (ap started_from (sym same) ∙ booted)

saved_given :
    (table : StateTable) (payload : Str) (at : Time) (db db' : table.Db)
    → save_auth_state table payload at db ≡ ok db'
    → is_empty payload ≡ false
unfolding save_auth_state
saved_given table payload at db db' saved = elim (Bool-cases (is_empty payload)) [
  | inl empty ↦ absurd (cc (rw empty at saved))
  | inr given ↦ given
]

with_credentials_seeded :
    (table : StateTable) (raw : Str) (now : Time) (db db' : table.Db)
    (r : Result AuthError Manager × List Event) (b : Booted table)
    → save_auth_state table raw now db ≡ ok db'
    → with_credentials table [] (some raw) now db r ≡ ok b
    → b.db ≡ db'
unfolding seed
with_credentials_seeded table raw now db db' (err e, events) b saved h = absurd (cc)
with_credentials_seeded table raw now db db' (ok m, events) b saved h =
    let start : Booted table = record {
      manager = m;
      db = seed table [] (some raw) now db;
      events = events;
    } in
    let booted : start ≡ b = cc in
    let stored : start.db ≡ db' =
      if_false (is_empty raw) db (or_same table db (save_auth_state table raw now db))
        (saved_given table raw now db db' saved)
      ∙ ap (or_same table db) saved in
    subst (λ (x : Booted table). x.db ≡ db') booted stored

-- A first start, with no row in the database, that succeeds and saves the credentials' file: the next
-- start that succeeds has the credentials of that file, whatever the file holds by then.
pub seeded_restored :
    (table : StateTable) (json : JsonLib) (c c' : Config) (writable writable' : Bool)
    (file file' file_after : Option Str) (now now' : Time) (raw : Str) (db db' : table.Db)
    (o : Option AuthState) (b b' : Booted table)
    → table.first auth_state_default_id db ≡ ok none
    → save_auth_state table raw now db ≡ ok db'
    → boot_auth table json c writable file (some raw) now db ≡ ok b
    → table.first auth_state_default_id b.db ≡ ok o
    → boot_auth table json c' writable' file' file_after now' b.db ≡ ok b'
    → Holds json raw c'.auth.account b'.manager
unfolding boot_auth load_auth_state
seeded_restored table json c c' writable writable' file file' file_after now now' raw db db' o b b'
      empty saved first_start found second_start =
    let start : Str → Result BootError (Booted table) = λ p.
      with_credentials table p (some raw) now db
        (new_manager json (options_of c p) writable file) in
    let none_yet : initial_of (load_auth_state table db) ≡ [] =
      ap (λ r. initial_of (loaded_state table r)) empty in
    let seeded : b.db ≡ db' =
      with_credentials_seeded table raw now db db'
        (new_manager json (options_of c []) writable file) b saved
        (ap start (sym none_yet) ∙ first_start) in
    (persisted_restored table json c' writable' file' file_after now now' raw db b.db o b'
      (saved ∙ ap ok (sym seeded)) found second_start).0
