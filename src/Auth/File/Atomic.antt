-- ===== src/Auth/File/Atomic.antt =====
-- internal/auth/auth.go: writeAuthFileAtomic at every moment, under every failure of a system call.
use grok_auth_proxy.Prelude.{
  ℕ, ◌≡◌, refl, ◌⊎◌, inl, inr, true, false, Option, none, some, List, [], ◌∷◌, ◌++◌, Result, ok,
  Bool-cases, arith, err, take, if_elim,
}
use grok_auth_proxy.Text.{Str, ◌==◌}
use grok_auth_proxy.Text.Laws.{==_iff, ==_refl}
use grok_auth_proxy.Assoc.{lookup, put, lookup-put, lookup-delete_if}
use grok_auth_proxy.Auth.File.{
  File, Files, WriteError, write_failed, sync_failed, close_failed, rename_failed, FileEnv, Written,
  remove_file, clean_up, then_state, rename_temp, close_temp, sync_temp, write_temp, create_temp,
  write_auth_file_atomic, last_state,
}

abbrev pub complete_file : Str → File
complete_file raw = record { content = raw; synced = true }

module _ (env : FileEnv) (name path raw : Str) (fs₀ : Files) where
  -- Where neither the path nor the temporary file is, nothing changes.
  abbrev IsElsewhere : Files → Type 0
  IsElsewhere fs =
      (other : Str)
      → (name == other) ≡ false
      → (path == other) ≡ false
      → lookup other fs ≡ lookup other fs₀

  -- The path has its old file, or none as before.
  abbrev IsOld : Files → Type 0
  IsOld fs = (lookup path fs ≡ lookup path fs₀) × IsElsewhere fs

  -- It has the old file, or the whole new one, which a crash does not harm.
  abbrev pub IsSafe : Files → Type 0
  IsSafe fs =
      ((lookup path fs ≡ lookup path fs₀) ⊎ (lookup path fs ≡ some (complete_file raw)))
      × IsElsewhere fs

  abbrev pub AllSafe : List Files → Type 0
  AllSafe [] = Unit
  AllSafe (fs ∷ states) = IsSafe fs × AllSafe states

  -- The files at the end, by the result.
  abbrev pub IsEnd : Result WriteError (Unit {0}) → Files → Type 0
  IsEnd (ok _) fs = (lookup path fs ≡ some (complete_file raw)) × (lookup name fs ≡ none)
  IsEnd (err e) fs =
      (lookup path fs ≡ lookup path fs₀) × (env.remove_ok ≡ true → lookup name fs ≡ none)

  abbrev IsWritten : Files → Written → Type 0
  IsWritten fs (r, states) = AllSafe states × IsEnd r (last_state fs states)

  module _ (distinct : (name == path) ≡ false) (distinct' : (path == name) ≡ false) where
    put-IsOld : (file : File) (fs : Files) → IsOld fs → IsOld (put name file fs)
    put-IsOld file fs (old, elsewhere) = (
      rw (lookup-put name path file fs, distinct) old,
      λ other a b. rw (lookup-put name other file fs, a) (elsewhere other a b),
    )

    remove-IsOld : (fs : Files) → IsOld fs → IsOld (remove_file name fs)
    remove-IsOld fs (old, elsewhere) = (
      rw (lookup-delete_if name path fs, distinct) old,
      λ other a b. rw (lookup-delete_if name other fs, a) (elsewhere other a b),
    )

    removed : (fs : Files) → lookup name (remove_file name fs) ≡ none
    removed fs = rw (lookup-delete_if name name fs, ==_refl name) refl

    old-IsSafe : (fs : Files) → IsOld fs → IsSafe fs
    old-IsSafe fs (old, elsewhere) = (inl old, elsewhere)

    clean_up-IsWritten :
        (e : WriteError) (fs : Files) → IsOld fs → IsWritten fs (clean_up env name e fs)
    unfolding clean_up
    clean_up-IsWritten e fs old = elim (Bool-cases env.remove_ok) [
      | inl works ↦
          let old' = remove-IsOld fs old in
          rw works ((old-IsSafe (remove_file name fs) old', tt), (old'.0, λ _. removed fs))
      | inr fails ↦ rw fails (tt, (old.0, λ h. absurd (cc)))
    ]

    then-IsWritten :
        (fs fs' : Files) (w : Written)
        → IsOld fs'
        → IsWritten fs' w
        → IsWritten fs (then_state fs' w)
    then-IsWritten fs fs' (r, states) old (safe, end) = ((old-IsSafe fs' old, safe), end)

    rename_temp-IsWritten :
        (fs : Files)
        → lookup name fs ≡ some (complete_file raw)
        → IsOld fs
        → IsWritten fs (rename_temp env name path fs)
    unfolding rename_temp
    rename_temp-IsWritten fs temp old =
        if_elim (IsWritten fs) env.rename_ok
          (λ _.
            let (old', elsewhere) = remove-IsOld fs old in
            let fs' = remove_file name fs in
            let new = complete_file raw in
            let here : lookup path (put path new fs') ≡ some new =
              rw (lookup-put path path new fs', ==_refl path) refl in
            rw temp (
              (
                (
                  inr here,
                  λ other a b. rw (lookup-put path other new fs', b) (elsewhere other a b),
                ),
                tt,
              ),
              (here, rw (lookup-put path name new fs', distinct') (removed fs)),
            ))
          (λ _. clean_up-IsWritten rename_failed fs old)

    close_temp-IsWritten :
        (fs : Files)
        → lookup name fs ≡ some (complete_file raw)
        → IsOld fs
        → IsWritten fs (close_temp env name path fs)
    unfolding close_temp
    close_temp-IsWritten fs temp old =
        if_elim (IsWritten fs) env.close_ok (λ _. rename_temp-IsWritten fs temp old)
          (λ _. clean_up-IsWritten close_failed fs old)

    has_temp : (file : File) (fs : Files) → lookup name (put name file fs) ≡ some file
    has_temp file fs = rw (lookup-put name name file fs, ==_refl name) refl

    sync_temp-IsWritten :
        (fs : Files)
        → lookup name fs ≡ some (record { content = raw; synced = false })
        → IsOld fs
        → IsWritten fs (sync_temp env name path fs)
    unfolding sync_temp
    sync_temp-IsWritten fs temp old =
        let fs' = put name (complete_file raw) fs in
        let old' = put-IsOld (complete_file raw) fs old in
        if_elim (IsWritten fs) env.sync_ok
          (λ _. rw temp (
            then-IsWritten fs fs' (close_temp env name path fs') old'
              (close_temp-IsWritten fs' (has_temp (complete_file raw) fs) old')))
          (λ _. clean_up-IsWritten sync_failed fs old)

    write_temp-IsWritten :
        (short : Option ℕ) (fs : Files)
        → IsOld fs
        → IsWritten fs (write_temp env short name path raw fs)
    unfolding write_temp
    write_temp-IsWritten none fs old =
        let file : File = record { content = raw; synced = false } in
        let fs' = put name file fs in
        let old' = put-IsOld file fs old in
        then-IsWritten fs fs' (sync_temp env name path fs') old'
          (sync_temp-IsWritten fs' (has_temp file fs) old')
    write_temp-IsWritten (some n) fs old =
        let file : File = record { content = take n raw; synced = false } in
        let fs' = put name file fs in
        let old' = put-IsOld file fs old in
        then-IsWritten fs fs' (clean_up env name write_failed fs') old'
          (clean_up-IsWritten write_failed fs' old')

    pub create_temp-IsWritten : IsWritten fs₀ (create_temp env (some name) path raw fs₀)
    unfolding create_temp
    create_temp-IsWritten =
        let file : File = record { content = []; synced = false } in
        let fs' = put name file fs₀ in
        let old' = put-IsOld file fs₀ (refl, λ other a b. refl) in
        then-IsWritten fs₀ fs' (write_temp env env.short_write name path raw fs') old'
          (write_temp-IsWritten env.short_write fs' old')

==_false_sym : (s t : Str) → (s == t) ≡ false → (t == s) ≡ false
==_false_sym s t h = ground (arith, ==_iff s t, ==_iff t s)

-- The temporary file has a name of its own. After each system call of writeAuthFileAtomic, whichever
-- of them fails, and so at whatever moment the program or the machine crashes: the path has its
-- old file, or none as before, or the whole new text, which is then on the disk; no file but these
-- two has changed. When it returns without an error, the path has the new text and the temporary file
-- is gone. When it returns an error, the path is as it was, and the temporary file is gone if it
-- could be removed.
pub write_auth_file_atomic-AllSafe :
    (env : FileEnv) (name path json : Str) (fs : Files)
    → (name == path) ≡ false
    → let raw = json ++ b'\n' ∷ [] in
      let (r, states) = write_auth_file_atomic env (some name) path (some json) fs in
      AllSafe env name path raw fs states × IsEnd env name path raw fs r (last_state fs states)
unfolding write_auth_file_atomic
write_auth_file_atomic-AllSafe env name path json fs distinct =
    create_temp-IsWritten env name path (json ++ b'\n' ∷ []) fs distinct
      (==_false_sym name path distinct)
