-- ===== src/Auth/Refresh/Install.antt =====
-- What a refresh that succeeds installs, persists and sends.
use grok_auth_proxy.Prelude.{
  ℕ, ◌+◌, ◌≡◌, ◌≢◌, refl, subst, ap, ◌∙◌, ◌⊎◌, inl, inr, Bool, true, false, ◌&&◌, some, List, [],
  ◌∷◌, ◌++◌, ok, arith,
}
use grok_auth_proxy.Text.{Str}
use grok_auth_proxy.Text.Laws.{==_refl, ==_iff}
use grok_auth_proxy.Auth.Entry.{FileData, lookup, put, clone_file_data}
use grok_auth_proxy.Auth.Entry.Laws.{lookup-put}
use grok_auth_proxy.Auth.Manager.{Event, http_post, persist, Manager, JsonLib, TokenResponse}
use grok_auth_proxy.Auth.Refresh.{
  RefreshEnv, read_token, new_entry, or_empty, store_back, install, refresh, is_fresh,
}
use grok_auth_proxy.Auth.Refresh.Effects.{
  with_endpoint, token_request, IsDiscovery, Refreshed, nothing, not_done, done, refresh_cases,
}

-- How often the token endpoint was asked.
abbrev pub count_posts : List Event → ℕ
count_posts [] = 0
count_posts (http_post url fields ∷ events) = count_posts events + 1
count_posts (_ ∷ events) = count_posts events

-- The event is among the events.
abbrev pub Occurs : Event → List Event → Type 0
Occurs event [] = ⊥
Occurs event (e ∷ events) = (e ≡ event) ⊎ Occurs event events

-- The manager `m'` and the events of a refresh of `m` that installed the token response `tr`.
pub record IsInstalled (env : RefreshEnv) (tr : TokenResponse) (m m' : Manager)
    (events : List Event) : Type 0 where
  pub entry : m'.entry ≡ new_entry env.now_issue tr m.entry
  pub map_key : m'.map_key ≡ m.map_key
  pub held :
      (fd : FileData) × (m'.file_data ≡ some fd)
      × (lookup m.map_key fd ≡ some m'.entry)
      × ((k : Str) → k ≢ m.map_key → lookup k fd ≡ lookup k (or_empty m.file_data))
      × (m.has_persist ≡ true → Occurs (persist (clone_file_data fd)) events)
  pub asked_once : count_posts events ≡ 1
  pub writing : m'.writing ≡ (m.file_writable && env.write_ok)

count_posts_of_discovery :
    (before after : List Event) (e : Event)
    → IsDiscovery before
    → count_posts (before ++ e ∷ after) ≡ count_posts (e ∷ after)
count_posts_of_discovery before after e (inl p) = rw p
count_posts_of_discovery before after e (inr (url, p)) = rw p

discovery-Occurs :
    (before after : List Event) (e p : Event)
    → IsDiscovery before
    → Occurs p after
    → Occurs p (before ++ e ∷ after)
discovery-Occurs before after e p (inl q) o = rw q (inr o)
discovery-Occurs before after e p (inr (url, q)) o = rw q (inr (inr o))

module _ (env : RefreshEnv) (tr : TokenResponse) (m : Manager) where
  abbrev installed : Manager × List Event
  installed = install env tr m.map_key m.entry m

  abbrev new_map : FileData
  new_map = put m.map_key (new_entry env.now_issue tr m.entry) (or_empty m.file_data)

  install_state : installed.0 ≡ record m {
    entry = new_entry env.now_issue tr m.entry;
    file_data = some new_map;
    writing = m.file_writable && env.write_ok;
  }
  unfolding install store_back
  install_state = ground arith

  install_quiet : count_posts installed.1 ≡ 0
  unfolding install store_back
  install_quiet = ground arith

  install_persists : m.has_persist ≡ true → Occurs (persist (clone_file_data new_map)) installed.1
  unfolding install store_back
  install_persists h = ground arith

module _ (env : RefreshEnv) (tr : TokenResponse) (m : Manager) (url endpoint : Str) where
  abbrev ended : Manager × List Event
  ended = installed env tr (with_endpoint m endpoint)

  done-IsInstalled :
      (before : List Event)
      → IsDiscovery before
      → IsInstalled env tr m ended.0 (before ++ token_request m url ∷ ended.1)
  done-IsInstalled before d =
      let state = install_state env tr (with_endpoint m endpoint) in
      let fd = new_map env tr (with_endpoint m endpoint) in
      record {
        entry = rw state refl;
        map_key = rw state refl;
        held = (
          fd,
          rw state refl,
          rw state (rw lookup-put (rw ==_refl refl)),
          λ k h. ground (
            arith,
            ==_iff m.map_key k,
            lookup-put m.map_key k (new_entry env.now_issue tr m.entry) (or_empty m.file_data),
          ),
          λ h.
              discovery-Occurs before ended.1 (token_request m url) _ d
                (install_persists env tr (with_endpoint m endpoint) h),
        );
        asked_once =
            count_posts_of_discovery before ended.1 (token_request m url) d
            ∙ ap (λ (n : ℕ). n + 1) (install_quiet env tr (with_endpoint m endpoint));
        writing = rw state refl;
      }

abbrev Outcome : JsonLib → RefreshEnv → Bool → Manager → Manager → List Event → Type 0
Outcome json env force m m' events =
    ((force ≡ false) × (is_fresh env.now_check m ≡ true) × (m' ≡ m) × (events ≡ []))
    ⊎ ((tr : TokenResponse) × (read_token json env.token ≡ ok tr) × IsInstalled env tr m m' events)

outcome_of_refreshed :
    (json : JsonLib) (env : RefreshEnv) (force : Bool) (m m' : Manager) (events : List Event)
    → Refreshed json env force m (ok tt, m', events)
    → Outcome json env force m m' events
outcome_of_refreshed json env force m m' events (nothing f fresh p) = inl (f, fresh, cc, cc)
outcome_of_refreshed json env force m m' events (not_done e endpoint events' _ p) = cc
outcome_of_refreshed json env force m m' events (done tr url endpoint before after a d q p) =
    let state : m' ≡ (ended env tr m url endpoint).0 = cc in
    let sent : events ≡ before ++ token_request m url ∷ (ended env tr m url endpoint).1 = cc in
    inr (tr, a, rw (state, sent) (done-IsInstalled env tr m url endpoint before d))

pub refresh_installs :
    (json : JsonLib) (env : RefreshEnv) (force : Bool) (m m' : Manager) (events : List Event)
    → refresh json env force m ≡ (ok tt, m', events)
    → ((force ≡ false) × (is_fresh env.now_check m ≡ true) × (m' ≡ m) × (events ≡ []))
      ⊎ ((tr : TokenResponse) × (read_token json env.token ≡ ok tr)
          × IsInstalled env tr m m' events)
refresh_installs json env force m m' events h =
    outcome_of_refreshed json env force m m' events
      (subst (Refreshed json env force m) h (refresh_cases json env force m))
