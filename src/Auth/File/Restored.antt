-- ===== src/Auth/File/Restored.antt =====
-- internal/auth/auth.go: the credentials that have been written are those that a reload finds.
use grok_auth_proxy.Prelude.{◌≡◌, refl, ◌∙◌, ap, true, false, Option, none, some, [], ◌∷◌, ◌++◌, ok}
use grok_auth_proxy.Text.{Str, ◌==◌}
use grok_auth_proxy.Assoc.{lookup}
use grok_auth_proxy.Auth.Entry.{FileData}
use grok_auth_proxy.Auth.Manager.{JsonLib, Manager, load_bytes, load_map, reload}
use grok_auth_proxy.Auth.File.{
  File, Files, FileEnv, rename_temp, close_temp, sync_temp, write_temp, create_temp,
  write_auth_file_atomic, last_state,
}
use grok_auth_proxy.Auth.File.Atomic.{write_auth_file_atomic-AllSafe}

-- os.ReadFile
abbrev content_of : Option File → Option Str
content_of none = none
content_of (some file) = some file.content

abbrev pub read_file : Str → Files → Option Str
read_file path fs = content_of (lookup path fs)

-- Every system call succeeds.
pub record NothingFails (env : FileEnv) : Type 0 where
  pub write : env.short_write ≡ none
  pub sync : env.sync_ok ≡ true
  pub close : env.close_ok ≡ true
  pub rename : env.rename_ok ≡ true

write_succeeds :
    (env : FileEnv) (name path json : Str) (fs : Files)
    → NothingFails env
    → (write_auth_file_atomic env (some name) path (some json) fs).0 ≡ ok tt
unfolding write_auth_file_atomic create_temp write_temp sync_temp close_temp rename_temp
write_succeeds env name path json fs h = rw (h.write, h.sync, h.close, h.rename) refl

load_bytes_parsed :
    (json : JsonLib) (raw : Str) (d : FileData) (m : Manager)
    → json.file_data raw ≡ some d
    → load_bytes json raw m ≡ load_map d m
unfolding load_bytes load_map
load_bytes_parsed json raw d m h = rw (h, load_bytes) refl

-- Where the system calls succeed, and decoding takes back what MarshalIndent has made of a map: the
-- write succeeds, and a reload from the files that it leaves does exactly what it does with the map
-- itself, whatever was in the path before.
pub write-reload :
    (json : JsonLib) (env : FileEnv) (name raw : Str) (d : FileData) (fs : Files) (m : Manager)
    → (name == m.path) ≡ false
    → NothingFails env
    → json.file_data (raw ++ b'\n' ∷ []) ≡ some d
    → let (r, states) = write_auth_file_atomic env (some name) m.path (some raw) fs in
      (r ≡ ok tt) × (reload json (read_file m.path (last_state fs states)) m ≡ load_map d m)
unfolding reload
write-reload json env name raw d fs m distinct works decodes =
    let (r, states) = write_auth_file_atomic env (some name) m.path (some raw) fs in
    let done = write_succeeds env name m.path raw fs works in
    let (_, end) = write_auth_file_atomic-AllSafe env name m.path raw fs distinct in
    let (here, _) = rw done at end in
    let read = ap content_of here in
    (done, ap (λ f. reload json f m) read ∙ load_bytes_parsed json (raw ++ b'\n' ∷ []) d m decodes)
