-- ===== src/Auth/File/Tests.antt =====
-- The file of the credentials, written with and without a failure.
use grok_auth_proxy.Prelude.{
  ◌≡◌, refl, if◌then◌else◌, true, false, none, some, [], ◌∷◌, ◌++◌, ok, err,
}
use grok_auth_proxy.Text.{Str, codes, ◌==◌, strings}
use grok_auth_proxy.Assoc.{lookup, put, delete_if}
use grok_auth_proxy.Auth.Manager.{JsonLib, load_map, reload}
use grok_auth_proxy.Auth.Samples.{accounts, late, manager_of, sample_json}
use grok_auth_proxy.Auth.File.{
  Files, FileEnv, sync_failed, clean_up, rename_temp, close_temp, sync_temp, write_temp,
  create_temp, write_auth_file_atomic, last_state, auth_path_writable,
}
use grok_auth_proxy.Auth.File.Atomic.{AllSafe, IsEnd, write_auth_file_atomic-AllSafe}
use grok_auth_proxy.Auth.File.Restored.{read_file, write-reload}

filing : Unit {0}
unfolding strings lookup put delete_if clean_up rename_temp close_temp sync_temp write_temp
    create_temp write_auth_file_atomic auth_path_writable
filing = tt

abbrev working : FileEnv
working = record {
  short_write = none;
  sync_ok = true;
  close_ok = true;
  rename_ok = true;
  remove_ok = true;
}

abbrev full_disk : FileEnv
full_disk = record working { sync_ok = false }

abbrev files : Files
files = (codes "auth.json", record { content = codes "old"; synced = true }) ∷ []

abbrev temp : Str
temp = codes ".auth-1.tmp"

unsynced :
    (write_auth_file_atomic full_disk (some temp) (codes "auth.json") (some (codes "new")) files).0
    ≡ err sync_failed
unfolding filing
unsynced = refl

write_auth_file_atomic-AllSafe_example :
    let raw = codes "new" ++ b'\n' ∷ [] in
    let (r, states) =
      write_auth_file_atomic full_disk (some temp) (codes "auth.json") (some (codes "new")) files in
    AllSafe full_disk temp (codes "auth.json") raw files states
    × IsEnd full_disk temp (codes "auth.json") raw files r (last_state files states)
unfolding filing
write_auth_file_atomic-AllSafe_example =
    write_auth_file_atomic-AllSafe full_disk temp (codes "auth.json") (codes "new") files refl

abbrev line_json : JsonLib
line_json = record sample_json {
  file_data = λ raw. if raw == (codes "M" ++ b'\n' ∷ []) then some accounts else none;
}

write-reload_example :
    let m = manager_of late in
    let (r, states) = write_auth_file_atomic working (some temp) m.path (some (codes "M")) files in
    (r ≡ ok tt)
    × (reload line_json (read_file m.path (last_state files states)) m ≡ load_map accounts m)
unfolding filing
write-reload_example =
    write-reload line_json working temp (codes "M") accounts files (manager_of late) refl
      (record { write = refl; sync = refl; close = refl; rename = refl }) refl

probed :
    auth_path_writable
      (record {
        temp_name = some (codes ".auth-writetest-1");
        remove_ok = true;
        is_file = true;
        open_ok = false;
      })
      files
    ≡ (false, files)
unfolding filing
probed = refl
