-- ===== src/Auth/File.antt =====
-- internal/auth/auth.go: the file of the credentials, written whole or not at all, and the test whether it
-- can be written.
-- The file system is a map from paths to files. Its answers are parameters. A file that has been
-- written but not synced may hold anything after a crash of the machine, so a file carries the mark
-- whether it has been synced. A write is recorded as the row of states of the file system that it
-- goes through, one for each system call that changes something: after a crash, the file system is
-- in one of them.
pub mod Atomic
pub mod Restored
mod Tests
use grok_auth_proxy.Prelude.{
  ℕ, Bool, true, false, Option, none, some, List, [], ◌∷◌, ◌++◌, Result, ok, err, take,
  if◌then◌else◌,
}
use grok_auth_proxy.Text.{Str, ◌==◌}
use grok_auth_proxy.Assoc.{lookup, put, delete_if}

pub record File : Type 0 where
  pub content : Str
  pub synced : Bool

abbrev pub Files : Type 0
Files = List (Str × File)

pub data WriteError : Type 0 where
  marshal_failed create_failed write_failed sync_failed close_failed rename_failed : WriteError

-- What the file system answers: how many bytes a write that fails has written, `none` for one that
-- succeeds; and which calls succeed.
pub record FileEnv : Type 0 where
  pub short_write : Option ℕ
  pub sync_ok : Bool
  pub close_ok : Bool
  pub rename_ok : Bool
  pub remove_ok : Bool

-- The result, and the states that the file system goes through.
abbrev pub Written : Type 0
Written = Result WriteError (Unit {0}) × List Files

-- os.Remove
abbrev pub remove_file : Str → Files → Files
remove_file name fs = delete_if (λ k _. k == name) fs

-- A file at a path, where there is one.
abbrev pub place : (path : Str) → Option File → Files → Files
place path none fs = fs
place path (some file) fs = put path file fs

-- os.Rename
abbrev pub rename_file : (name path : Str) → Files → Files
rename_file name path fs = place path (lookup name fs) (remove_file name fs)

-- What is on the disk of a file after tmp.Sync.
abbrev pub synced_file : Option File → Option File
synced_file none = none
synced_file (some file) = some (record file { synced = true })

-- tmp.Sync
abbrev pub sync_file : (name : Str) → Files → Files
sync_file name fs = place name (synced_file (lookup name fs)) fs

-- A return with an error, and the deferred cleanup.
unfoldable pub clean_up : FileEnv → Str → WriteError → Files → Written
clean_up env name e fs = (err e, if env.remove_ok then remove_file name fs ∷ [] else [])

-- The state that a call leaves, before what follows it.
abbrev pub then_state : Files → Written → Written
then_state fs (r, states) = (r, fs ∷ states)

-- From os.Rename on.
unfoldable pub rename_temp : FileEnv → (name path : Str) → Files → Written
rename_temp env name path fs =
    if env.rename_ok
    then (ok tt, rename_file name path fs ∷ [])
    else clean_up env name rename_failed fs

-- From tmp.Close on.
unfoldable pub close_temp : FileEnv → (name path : Str) → Files → Written
close_temp env name path fs =
    if env.close_ok then rename_temp env name path fs else clean_up env name close_failed fs

-- From tmp.Sync on.
unfoldable pub sync_temp : FileEnv → (name path : Str) → Files → Written
sync_temp env name path fs =
    if env.sync_ok
    then (let fs' = sync_file name fs in then_state fs' (close_temp env name path fs'))
    else clean_up env name sync_failed fs

-- From tmp.Write on.
unfoldable pub write_temp : FileEnv → Option ℕ → (name path raw : Str) → Files → Written
write_temp env none name path raw fs =
    let fs' = put name (record { content = raw; synced = false }) fs in
    then_state fs' (sync_temp env name path fs')
write_temp env (some n) name path raw fs =
    let fs' = put name (record { content = take n raw; synced = false }) fs in
    then_state fs' (clean_up env name write_failed fs')

-- From os.CreateTemp on.
unfoldable pub create_temp : FileEnv → Option Str → (path raw : Str) → Files → Written
create_temp env none path raw fs = (err create_failed, [])
create_temp env (some name) path raw fs =
    let fs' = put name (record { content = []; synced = false }) fs in
    then_state fs' (write_temp env env.short_write name path raw fs')

-- writeAuthFileAtomic on what json.MarshalIndent gives, `none` for an error; `temp` is the name that
-- os.CreateTemp picks, `none` for an error.
unfoldable pub write_auth_file_atomic :
    FileEnv → (temp : Option Str) → (path : Str) → Option Str → Files → Written
write_auth_file_atomic env temp path none fs = (err marshal_failed, [])
write_auth_file_atomic env temp path (some raw) fs =
    create_temp env temp path (raw ++ b'\n' ∷ []) fs

-- The state at the end.
abbrev pub last_state : Files → List Files → Files
last_state fs [] = fs
last_state fs (fs' ∷ states) = last_state fs' states

-- What authPathWritable meets: the name that os.CreateTemp picks, whether os.Remove succeeds, whether
-- os.Stat finds a file that is no directory, and whether it can be opened for writing.
pub record ProbeEnv : Type 0 where
  pub temp_name : Option Str
  pub remove_ok : Bool
  pub is_file : Bool
  pub open_ok : Bool

abbrev pub probe_with : ProbeEnv → Option Str → Files → Bool × Files
probe_with env none fs = (false, fs)
probe_with env (some name) fs =
    let fs' = put name (record { content = []; synced = false }) fs in
    (if env.is_file then env.open_ok else true, if env.remove_ok then remove_file name fs' else fs')

-- authPathWritable, with the files that it leaves
unfoldable pub auth_path_writable : ProbeEnv → Files → Bool × Files
auth_path_writable env fs = probe_with env env.temp_name fs
