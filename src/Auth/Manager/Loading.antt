-- ===== src/Auth/Manager/Loading.antt =====
-- loadBytes and NewManager of internal/auth/auth.go: what a load and a start leave.
use grok_auth_proxy.Prelude.{
  ◌≡◌, refl, sym, subst, ◌∙◌, ◌⊎◌, inl, inr, Bool, true, false, Option, none, some, List, [],
  Result, ok, err, is_empty, Bool-cases, Option-cases, Result-cases,
}
use grok_auth_proxy.Text.{Str, ◌==◌, is_blank}
use grok_auth_proxy.Auth.Entry.{Entry, FileData}
use grok_auth_proxy.Auth.Select.{select_entry}
use grok_auth_proxy.Auth.Manager.{
  Manager, JsonLib, AuthError, Options, publish_metrics, ready, adopt, load_map, load_bytes, reload,
  fresh, materialise, finish, new_manager, Event, empty_key, parse_failed, no_entries, not_selected,
}

-- What a load that succeeds leaves: the file's entries, one of them selected, and no token endpoint.
pub record IsLoaded (json : JsonLib) (raw : Str) (m m' : Manager) : Type 0 where
  pub file_data : m'.file_data ≡ json.file_data raw
  pub selected :
      (fd : FileData) × (m'.file_data ≡ some fd)
      × (select_entry fd m.account ≡ ok (m'.map_key, m'.entry))
  pub usable : is_blank m'.entry.key ≡ false
  pub token_endpoint : m'.token_endpoint ≡ []
  pub writing : m'.writing ≡ m.writing

abbrev Outcome :
    JsonLib → Str → Manager → Result AuthError (Unit {0}) × Manager × List Event → Type 0
Outcome json raw m r =
    ((e : AuthError) × (r ≡ (err e, m, [])))
    ⊎ ((m' : Manager) × (r ≡ (ok tt, m', publish_metrics m')) × IsLoaded json raw m m')

adopt_outcome :
    (json : JsonLib) (raw : Str) (m : Manager) (fd : FileData) (k : Str) (e : Entry)
    → json.file_data raw ≡ some fd
    → select_entry fd m.account ≡ ok (k, e)
    → Outcome json raw m (adopt fd k e m)
unfolding adopt
adopt_outcome json raw m fd k e parsed selected = elim (Bool-cases (is_blank e.key)) [
  | inl blank ↦ inl (empty_key, rw blank)
  | inr given ↦ inr (
    record m { file_data = some fd; map_key = k; entry = e; token_endpoint = [] },
    rw given,
    record {
      file_data = sym parsed;
      selected = (fd, refl, selected);
      usable = given;
      token_endpoint = refl;
      writing = refl;
    },
  )
]

load_map_outcome :
    (json : JsonLib) (raw : Str) (m : Manager) (fd : FileData)
    → json.file_data raw ≡ some fd
    → Outcome json raw m (load_map fd m)
unfolding load_map
load_map_outcome json raw m fd parsed = elim (Bool-cases (is_empty fd)) [
  | inl none_there ↦ inl (no_entries, rw none_there)
  | inr some_there ↦ elim (Result-cases (select_entry fd m.account)) [
    | inl (e, refused) ↦ inl (not_selected e, rw some_there (rw (refused, load_map)))
    | inr ((k, e), selected) ↦
        rw some_there (rw (selected, load_map) (adopt_outcome json raw m fd k e parsed selected))
  ]
]

-- A load either fails, changes nothing and publishes nothing, or it leaves the selected entry of the
-- file, which is usable, and publishes its state.
pub load_bytes_atomic :
    (json : JsonLib) (raw : Str) (m : Manager)
    → ((e : AuthError) × (load_bytes json raw m ≡ (err e, m, [])))
      ⊎ ((m' : Manager) × (load_bytes json raw m ≡ (ok tt, m', publish_metrics m'))
          × IsLoaded json raw m m')
unfolding load_bytes
load_bytes_atomic json raw m = elim (Option-cases (json.file_data raw)) [
  | inl failed ↦ inl (parse_failed, rw (failed, load_bytes))
  | inr (fd, parsed) ↦ rw (parsed, load_bytes) (load_map_outcome json raw m fd parsed)
]

abbrev Ready : Result AuthError Manager × List Event → Type 0
Ready (err e, events) = Unit
Ready (ok m, events) = (ready m ≡ true) × (m.writing ≡ false)

finish-Ready :
    (json : JsonLib) (raw : Str) (m : Manager) (write : Manager → List Event)
    → m.writing ≡ false
    → Ready (finish (load_bytes json raw m) write)
unfolding finish ready
finish-Ready json raw m write h = elim (load_bytes_atomic json raw m) [
  | inl (e, failed) ↦ rw (failed, finish) tt
  | inr (m', done, l) ↦ rw (done, finish) (rw l.usable refl, l.writing ∙ h)
]

reload-Ready :
    (json : JsonLib) (file : Option Str) (m : Manager)
    → m.writing ≡ false
    → Ready (finish (reload json file m) (λ _. []))
unfolding reload finish
reload-Ready json none m h = tt
reload-Ready json (some raw) m h = finish-Ready json raw m (λ _. []) h

new_manager-Ready :
    (json : JsonLib) (opts : Options) (writable : Bool) (file : Option Str)
    → Ready (new_manager json opts writable file)
unfolding new_manager
new_manager-Ready json opts writable file = elim (Bool-cases (opts.path == [])) [
  | inl missing ↦ rw missing tt
  | inr given ↦ rw given (elim (Bool-cases (is_empty opts.initial_data)) [
    | inl absent ↦ rw absent (reload-Ready json file (fresh opts writable) (unfold fresh in refl))
    | inr there ↦ rw there (
        finish-Ready json opts.initial_data (fresh opts writable) materialise
          (unfold fresh in refl))
  ])
]

-- A manager that could be made is ready: it has an access token that is not blank. It does not
-- ignore changes of the file.
pub new_manager-ready :
    (json : JsonLib) (opts : Options) (writable : Bool) (file : Option Str) {m : Manager}
    {events : List Event}
    → new_manager json opts writable file ≡ (ok m, events)
    → (ready m ≡ true) × (m.writing ≡ false)
new_manager-ready json opts writable file h =
    subst Ready h (new_manager-Ready json opts writable file)
