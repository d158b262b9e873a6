-- ===== src/Metrics/Series.antt =====
-- internal/metrics/metrics.go: the series that the middleware makes.
use grok_auth_proxy.Prelude.{
  ℕ, suc, ◌+◌, ◌≡◌, ◌⊎◌, refl, inl, inr, ap, true, false, List, [], ◌∷◌, In, arith, length,
  is_empty, map, if_elim,
}
use grok_auth_proxy.Text.{Str, ◌==◌}
use grok_auth_proxy.Metrics.{
  Labels, is_same, Vector, inc, Metrics, new_metrics, unmatched_route, Seen, path_label, observe,
  observe_all,
}

-- How many events the series have counted.
abbrev pub total : Vector → ℕ
total [] = 0
total ((j, n) ∷ v) = n + total v

total-inc : (k : Labels) (v : Vector) → total (inc k v) ≡ suc (total v)
unfolding inc
total-inc k [] = omega arith
total-inc k ((j, n) ∷ v) =
    if_elim (λ (x : Vector). total x ≡ suc (n + total v)) (is_same j k) (λ _. omega arith)
      (λ _. omega (arith, total-inc k v))

-- The paths of the series.
abbrev pub AllPaths : List Str → Vector → Type 0
AllPaths paths [] = Unit
AllPaths paths ((j, n) ∷ v) = In j.path paths × AllPaths paths v

AllPaths-inc :
    (paths : List Str) (k : Labels) (v : Vector)
    → In k.path paths
    → AllPaths paths v
    → AllPaths paths (inc k v)
unfolding inc
AllPaths-inc paths k [] i h = (i, tt)
AllPaths-inc paths k ((j, n) ∷ v) i (here, h) =
    if_elim (AllPaths paths) (is_same j k) (λ _. (here, h))
      (λ _. (here, AllPaths-inc paths k v i h))

-- gin names a route of its table, or none.
abbrev pub AllRouted : List Str → List Seen → Type 0
AllRouted routes [] = Unit
AllRouted routes (r ∷ rs) =
    (is_empty r.full_path ≡ true ⊎ In r.full_path routes) × AllRouted routes rs

path_label-In :
    (routes : List Str) (path : Str)
    → is_empty path ≡ true ⊎ In path routes
    → In (path_label path) (unmatched_route ∷ routes)
path_label-In routes [] h = inl refl
path_label-In routes (b ∷ s) (inl e) = absurd (cc)
path_label-In routes (b ∷ s) (inr i) = inr i

abbrev IsCounted : List Str → ℕ → Metrics → Type 0
IsCounted paths n m =
    (total m.requests ≡ n)
    × (total m.latency ≡ n)
    × AllPaths paths m.requests
    × AllPaths paths m.latency

observe_all-IsCounted_from :
    (routes : List Str) (rs : List Seen) (n : ℕ) (m : Metrics)
    → AllRouted routes rs
    → IsCounted (unmatched_route ∷ routes) n m
    → IsCounted (unmatched_route ∷ routes) (n + length rs) (observe_all rs m)
unfolding observe_all observe
observe_all-IsCounted_from routes [] n m routed (a, b, c, d) =
    (omega (arith, a), omega (arith, b), c, d)
observe_all-IsCounted_from routes (r ∷ rs) n m (here, routed) (a, b, c, d) =
    let paths = unmatched_route ∷ routes in
    let path = path_label r.full_path in
    let i = path_label-In routes r.full_path here in
    let k : Labels = record { method = r.method; path = path; status = r.status } in
    let l : Labels = record { method = r.method; path = path; status = 0 } in
    let (a', b', c', d') = observe_all-IsCounted_from routes rs (suc n) (observe r m) routed (
      omega (arith, total-inc k m.requests, a),
      omega (arith, total-inc l m.latency, b),
      AllPaths-inc paths k m.requests i c,
      AllPaths-inc paths l m.latency i d,
    ) in
    (omega (arith, a'), omega (arith, b'), c', d')

-- Every request is counted once in the counter and once in the histogram, and whatever paths are asked
-- for, every series has the template of a route as its path, or the one label of all the
-- requests that match no route.
pub observe_all-AllPaths :
    (routes : List Str) (rs : List Seen)
    → AllRouted routes rs
    → let m = observe_all rs new_metrics in
      (total m.requests ≡ length rs)
      × (total m.latency ≡ length rs)
      × AllPaths (unmatched_route ∷ routes) m.requests
      × AllPaths (unmatched_route ∷ routes) m.latency
unfolding new_metrics
observe_all-AllPaths routes rs routed =
    let (a, b, c, d) =
      observe_all-IsCounted_from routes rs 0 new_metrics routed (refl, refl, tt, tt) in
    (omega (arith, a), omega (arith, b), c, d)

-- A request that matches no route, with a method of the client's choice.
abbrev pub stray : Str → Seen
stray method = record { method = method; full_path = []; status = 404 }

abbrev pub AllDistinct : List Str → Type 0
AllDistinct [] = Unit
AllDistinct (x ∷ xs) = ((y : Str) → In y xs → (x == y) ≡ false) × AllDistinct xs

-- No series has the method.
abbrev IsFresh : Str → Vector → Type 0
IsFresh method [] = Unit
IsFresh method ((j, n) ∷ v) = ((j.method == method) ≡ false) × IsFresh method v

inc_fresh : (k : Labels) (v : Vector) → IsFresh k.method v → length (inc k v) ≡ suc (length v)
unfolding inc
inc_fresh k [] h = refl
inc_fresh k ((j, n) ∷ v) (other, h) = rw other (ap suc (inc_fresh k v h))

inc-IsFresh :
    (method : Str) (k : Labels) (v : Vector)
    → (k.method == method) ≡ false
    → IsFresh method v
    → IsFresh method (inc k v)
unfolding inc
inc-IsFresh method k [] e h = (e, tt)
inc-IsFresh method k ((j, n) ∷ v) e (other, h) =
    if_elim (IsFresh method) (is_same j k) (λ _. (other, h))
      (λ _. (other, inc-IsFresh method k v e h))

strays-requests :
    (methods : List Str) (m : Metrics)
    → AllDistinct methods
    → ((x : Str) → In x methods → IsFresh x m.requests)
    → length (observe_all (map stray methods) m).requests ≡ length methods + length m.requests
unfolding observe_all observe
strays-requests [] m distinct fresh = omega arith
strays-requests (x ∷ xs) m (other, distinct) fresh =
    let k : Labels = record { method = x; path = unmatched_route; status = 404 } in
    omega (
      arith,
      inc_fresh k m.requests (fresh x (inl refl)),
      strays-requests xs (observe (stray x) m) distinct
          (λ y i. inc-IsFresh y k m.requests (other y i) (fresh y (inr i))),
    )

-- The methods of requests that match no route are labels as they come: as many different methods a
-- client makes up, as many series the counter has, one for each of them, and none is ever removed.
pub strays_unbounded :
    (methods : List Str)
    → AllDistinct methods
    → length (observe_all (map stray methods) new_metrics).requests ≡ length methods
unfolding new_metrics
strays_unbounded methods distinct =
    omega (arith, strays-requests methods new_metrics distinct (λ x i. tt))
