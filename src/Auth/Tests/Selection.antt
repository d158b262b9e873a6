-- ===== src/Auth/Tests/Selection.antt =====
-- Selection and loading on concrete files.
use grok_auth_proxy.Prelude.{
  ◌≡◌, refl, ◌⊎◌, ◌≢◌, true, false, none, some, List, [], Result, ok, err, In, arith,
}
use grok_auth_proxy.Text.{Str, codes, contains, strings}
use grok_auth_proxy.Auth.Entry.{Entry}
use grok_auth_proxy.Auth.Select.{no_usable_entry, better, best_from, find_account, select_entry}
use grok_auth_proxy.Auth.Select.Laws.{IsChosen, NoneUsable, select_entry_unnamed}
use grok_auth_proxy.Auth.Manager.{
  AuthError, Manager, Event, publish_metrics, adopt, load_map, load_bytes, reload, fresh,
  materialise, finish, new_manager,
}
use grok_auth_proxy.Auth.Manager.Loading.{IsLoaded, load_bytes_atomic}
use grok_auth_proxy.Auth.Samples.{
  early, late, accounts, accounts', sample_json, manager_of, sample_options,
}

loading : Unit {0}
unfolding strings better best_from find_account select_entry publish_metrics adopt load_map
    load_bytes reload fresh materialise finish new_manager sample_json
loading = tt

chosen : select_entry accounts [] ≡ ok (codes "ab", late)
unfolding loading
chosen = refl

select_entry_unnamed_example :
    ((p : Str × Entry) × (select_entry accounts [] ≡ ok p) × IsChosen p accounts)
    ⊎ ((select_entry accounts [] ≡ err no_usable_entry) × NoneUsable accounts)
select_entry_unnamed_example = select_entry_unnamed accounts

reordered : (p : Str × Entry) → In p accounts → In p accounts'
reordered p m = ground arith

reordered' : (p : Str × Entry) → In p accounts' → In p accounts
reordered' p m = ground arith

a_given : codes "a" ≢ []
a_given e = cc

holds_a : contains (codes "ab") (codes "a") ≡ true
unfolding strings
holds_a = refl

load_bytes_atomic_example :
    ((e : AuthError) × (load_bytes sample_json (codes "M") (manager_of early)
        ≡ (err e, manager_of early, [])))
    ⊎ ((m' : Manager) × (load_bytes sample_json (codes "M") (manager_of early)
          ≡ (ok tt, m', publish_metrics m'))
        × IsLoaded sample_json (codes "M") (manager_of early) m')
load_bytes_atomic_example = load_bytes_atomic sample_json (codes "M") (manager_of early)

abbrev made : Result AuthError Manager × List Event
made = new_manager sample_json sample_options false none

abbrev made_manager : Manager
made_manager = record (manager_of late) {
  has_metrics = false;
  file_writable = false;
  map_key = codes "ab";
  file_data = some accounts;
}

made_lem : made ≡ (ok made_manager, [])
unfolding loading
made_lem = refl

abbrev loaded : Manager
loaded = record (manager_of late) { map_key = codes "ab"; file_data = some accounts }

loaded_lem :
    load_bytes sample_json (codes "M") (manager_of early) ≡ (ok tt, loaded, publish_metrics loaded)
unfolding loading
loaded_lem = refl
