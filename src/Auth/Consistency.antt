-- ===== src/Auth/Consistency.antt =====
-- The entry in use is the one that the map of all entries holds under the name in use, so that what a
-- refresh persists holds the credentials in use.
use grok_auth_proxy.Prelude.{
  ◌≡◌, refl, inl, inr, sym, ap, ◌∙◌, Bool, false, some, List, [], ◌∷◌, Result, ok, err, arith, In,
  Bool-cases,
}
use grok_auth_proxy.Text.{Str, ◌==◌, is_blank}
use grok_auth_proxy.Clock.{Time}
use grok_auth_proxy.Text.Laws.{==_iff}
use grok_auth_proxy.Auth.Entry.{Entry, FileData, lookup}
use grok_auth_proxy.Auth.Entry.Laws.{HasKey, IsMap}
use grok_auth_proxy.Auth.Select.{select_entry}
use grok_auth_proxy.Auth.Select.Laws.{select_entry_unnamed}
use grok_auth_proxy.Auth.Select.Account.{select_entry_named}
use grok_auth_proxy.Auth.Manager.{AuthError, Event, JsonLib, Manager, load_bytes}
use grok_auth_proxy.Auth.Manager.Loading.{load_bytes_atomic}
use grok_auth_proxy.Auth.Refresh.{RefreshEnv, refresh, do_refresh}
use grok_auth_proxy.Auth.Refresh.Failure.{refresh_failure_keeps}
use grok_auth_proxy.Auth.Refresh.Install.{refresh_installs}
use grok_auth_proxy.Auth.Token.{TokenEnv, needs_refresh, after_refresh, get_access_token}

abbrev pub IsConsistent : Manager → Type 0
IsConsistent m = (fd : FileData) × (m.file_data ≡ some fd) × (lookup m.map_key fd ≡ some m.entry)

In-HasKey : (k : Str) (e : Entry) (fd : FileData) → In (k, e) fd → HasKey k fd
In-HasKey k e [] i = elim i [ ]
In-HasKey k e ((j, f) ∷ fd) (inl p) = inl (ap (λ (x : Str × Entry). x.0) p)
In-HasKey k e ((j, f) ∷ fd) (inr m) = inr (In-HasKey k e fd m)

lookup_of_In :
    (k : Str) (e : Entry) (fd : FileData) → IsMap fd → In (k, e) fd → lookup k fd ≡ some e
unfolding lookup
lookup_of_In k e [] m i = elim i [ ]
lookup_of_In k e ((j, f) ∷ fd) m (inl p) =
    let k≡j : k ≡ j = ap (λ (x : Str × Entry). x.0) p in
    let e≡f : e ≡ f = ap (λ (x : Str × Entry). x.1) p in
    rw ((==_iff j k).1 (sym k≡j)) (ap some (sym e≡f))
lookup_of_In k e ((j, f) ∷ fd) (fresh, m) (inr i) = elim (Bool-cases (j == k)) [
  | inl same ↦ absurd (fresh (rw ((==_iff j k).0 same) (In-HasKey k e fd i)))
  | inr other ↦ rw other (lookup_of_In k e fd m i)
]

select_entry_listed :
    (fd : FileData) (account : Str) {p : Str × Entry} → select_entry fd account ≡ ok p → In p fd
select_entry_listed fd [] {p} h = elim (select_entry_unnamed fd) [
  | inl (q, found, c) ↦ let same : q ≡ p = cc in rw (← same) c.listed
  | inr (failed, _) ↦ cc
]
select_entry_listed fd (a ∷ account) {p} h = elim (select_entry_named fd (a ∷ account) (λ e. cc)) [
  | inl (q, found, m, _) ↦ let same : q ≡ p = cc in rw (← same) m
  | inr (failed, _) ↦ cc
]

-- A load that succeeds leaves a consistent manager, for the maps that decoding gives have each key
-- once.
pub load_bytes-IsConsistent :
    (json : JsonLib) (raw : Str) (m m' : Manager) (events : List Event)
    → ((fd : FileData) → json.file_data raw ≡ some fd → IsMap fd)
    → load_bytes json raw m ≡ (ok tt, m', events)
    → IsConsistent m'
load_bytes-IsConsistent json raw m m' events maps h = elim (load_bytes_atomic json raw m) [
  | inl (e, failed) ↦ cc
  | inr (m'', done, l) ↦
      let same : m'' ≡ m' = cc in
      let (fd, there, selected) = l.selected in
      rw (← same) (
        fd,
        there,
        lookup_of_In m''.map_key m''.entry fd (maps fd (sym l.file_data ∙ there))
            (select_entry_listed fd m.account selected),
      )
]

pub refresh-IsConsistent :
    (json : JsonLib) (env : RefreshEnv) (force : Bool) (m : Manager)
    → IsConsistent m
    → IsConsistent (refresh json env force m).1
refresh-IsConsistent json env force m c = by_result (refresh json env force m) refl
  where
    by_result :
        (r : Result AuthError (Unit {0}) × Manager × List Event)
        → refresh json env force m ≡ r
        → IsConsistent r.1
    by_result (err e, m', events) h =
        let (same, _) = refresh_failure_keeps json env force m m' e events h in rw same c
    by_result (ok _, m', events) h = elim (refresh_installs json env force m m' events h) [
      | inl (_, _, same, _) ↦ rw same c
      | inr (tr, _, i) ↦ let (fd, there, held, _, _) = i.held in (fd, there, rw i.map_key held)
    ]

after_refresh_manager :
    (now : Time) (e : Entry) (r : Result AuthError (Unit {0}) × Manager × List Event)
    → (after_refresh now e r).1 ≡ r.1
unfolding after_refresh
after_refresh_manager now e (ok _, m, events) = refl
after_refresh_manager now e (err x, m, events) = ground arith

-- Asking for a token, whatever comes of it, keeps the manager consistent.
pub get_access_token-IsConsistent :
    (json : JsonLib) (env : TokenEnv) (m : Manager)
    → IsConsistent m
    → IsConsistent (get_access_token json env m).1
unfolding get_access_token
get_access_token-IsConsistent json env m c = elim (Bool-cases (is_blank m.entry.key)) [
  | inl blank ↦ rw blank c
  | inr there ↦ rw there (elim (Bool-cases (needs_refresh env.now_check m)) [
    | inl due ↦ rw due (
        rw after_refresh_manager
          (unfold do_refresh in refresh-IsConsistent json env.refresh false m c))
    | inr not_due ↦ rw not_due c
  ])
]
