-- ===== src/Server/Routes/Guarded.antt =====
-- internal/server/server.go: the routes of New against a plain table of them, with the guard of each.
use grok_auth_proxy.Prelude.{
  ◌≡◌, refl, sym, ap, subst, ◌∙◌, Bool, true, false, Option, none, some, List, [], ◌∷◌, ◌++◌, map,
  if◌then◌else◌, if_elim,
}
use mathlib.Core.List.{append-nil, append_assoc}
use grok_auth_proxy.Text.{Str, codes}
use grok_auth_proxy.Config.{Config}
use grok_auth_proxy.Server.Routes.{
  Layer, recovery, request_id, access_log, cors, metrics, api_key_auth, rate_limit, admin_auth,
  Endpoint, scrape, health, ready, proxied, create_key, list_keys, revoke_key, reload_auth,
  list_audit, get_audit, Method, get, post, delete, Route, Router, GinLib, use_layer, handle,
  on_engine, on_group, with_metrics, bare_engine, health_routes, v1_routes, admin_routes,
  new_router,
}

-- What stands in front of an endpoint, beside what stands in front of all of them.
abbrev pub guards : Endpoint → List Layer
guards scrape = []
guards health = []
guards ready = []
guards proxied = api_key_auth ∷ rate_limit ∷ []
guards _ = admin_auth ∷ []

abbrev pub common : Bool → List Layer
common has_metrics =
    recovery ∷ request_id ∷ access_log ∷ cors ∷ (if has_metrics then metrics ∷ [] else [])

abbrev pub Row : Type 0
Row = Method × Str × Endpoint

abbrev pub route_of : List Layer → Row → Route
route_of layers (method, path, endpoint) = record {
  method = method;
  path = path;
  layers = layers ++ guards endpoint;
  endpoint = endpoint;
}

abbrev pub fixed_rows : List Row
fixed_rows =
    (get, codes "/health", health)
    ∷ (get, codes "/ready", ready)
    ∷ (post, codes "/v1/chat/completions", proxied)
    ∷ (get, codes "/v1/models", proxied)
    ∷ (post, codes "/v1/completions", proxied)
    ∷ (post, codes "/v1/embeddings", proxied)
    ∷ (post, codes "/v1/responses", proxied)
    ∷ (post, codes "/admin/keys", create_key)
    ∷ (get, codes "/admin/keys", list_keys)
    ∷ (delete, codes "/admin/keys/:id", revoke_key)
    ∷ (post, codes "/admin/reload-auth", reload_auth)
    ∷ (get, codes "/admin/audit", list_audit)
    ∷ (get, codes "/admin/audit/:id", get_audit)
    ∷ []

abbrev pub rows : Config → List Row
rows c = (if c.metrics.enabled then (get, c.metrics.path, scrape) ∷ [] else []) ++ fixed_rows

map-append : {A B : Type 0} (f : A → B) (xs ys : List A) → map f (xs ++ ys) ≡ map f xs ++ map f ys
map-append f [] ys = refl
map-append f (x ∷ xs) ys = rw (map-append f xs ys)

module _ (gin : GinLib) (r₀ : Router) where
  -- The routes of the table have been added, if nothing has panicked.
  abbrev IsGrown : List Row → Option Router → Type 0
  IsGrown table o =
      (r : Router)
      → o ≡ some r
      → (r.layers ≡ r₀.layers) × (r.routes ≡ r₀.routes ++ map (route_of r₀.layers) table)

  handle-IsGrown :
      (table : List Row) (o : Option Router) (row : Row)
      → IsGrown table o
      → IsGrown (table ++ row ∷ []) (on_group gin (guards row.2) row.0 row.1 row.2 o)
  unfolding handle
  handle-IsGrown table none row h = λ r e. absurd (cc)
  handle-IsGrown table (some r₁) (method, path, endpoint) h =
      let (same, grown) = h r₁ refl in
      let f = route_of r₀.layers in
      let new : Route = route_of r₁.layers (method, path, endpoint) in
      let last : new ≡ f (method, path, endpoint) =
        ap (λ l. route_of l (method, path, endpoint)) same in
      let whole : r₁.routes ++ new ∷ []
          ≡ r₀.routes ++ map f (table ++ (method, path, endpoint) ∷ []) =
        ap (λ l. l ++ new ∷ []) grown
        ∙ append_assoc r₀.routes (map f table) (new ∷ [])
        ∙ ap (λ x. r₀.routes ++ (map f table ++ x ∷ [])) last
        ∙ ap (λ l. r₀.routes ++ l) (sym (map-append f table ((method, path, endpoint) ∷ []))) in
      if_elim (IsGrown (table ++ (method, path, endpoint) ∷ [])) (gin.accepts r₁.routes method path)
        (λ _ r e.
          let e' : record r₁ { routes = r₁.routes ++ new ∷ [] } ≡ r = cc in
          subst
            (λ (x : Router).
              (x.layers ≡ r₀.layers)
              × (x.routes ≡ r₀.routes ++ map f (table ++ (method, path, endpoint) ∷ [])))
            e' (same, whole))
        (λ _ r e. absurd (cc))

  start-IsGrown : IsGrown [] (some r₀)
  start-IsGrown r e =
      let same : r₀ ≡ r = cc in
      subst (λ (x : Router). (x.layers ≡ r₀.layers) × (x.routes ≡ r₀.routes ++ [])) same
        (refl, sym (append-nil r₀.routes))

  add_rows : List Row → Option Router → Option Router
  add_rows [] o = o
  add_rows ((method, path, endpoint) ∷ rs) o =
      add_rows rs (on_group gin (guards endpoint) method path endpoint o)

  add_rows-IsGrown :
      (table rs : List Row) (o : Option Router)
      → IsGrown table o
      → IsGrown (table ++ rs) (add_rows rs o)
  unfolding add_rows
  add_rows-IsGrown table [] o h = subst (λ t. IsGrown t o) (sym (append-nil table)) h
  add_rows-IsGrown table ((method, path, endpoint) ∷ rs) o h =
      let row : Row = (method, path, endpoint) in
      let o' = on_group gin (guards endpoint) method path endpoint o in
      subst (λ t. IsGrown t (add_rows rs o')) (append_assoc table (row ∷ []) rs)
        (add_rows-IsGrown (table ++ row ∷ []) rs o' (handle-IsGrown table o row h))

  fixed-IsGrown :
      (table : List Row) (o : Option Router)
      → IsGrown table o
      → IsGrown (table ++ fixed_rows) (admin_routes gin (v1_routes gin (health_routes gin o)))
  unfolding admin_routes v1_routes health_routes add_rows
  fixed-IsGrown table o h = add_rows-IsGrown table fixed_rows o h

-- If gin accepts all paths, so that New does not panic, the engine has exactly the routes of the table:
-- the metrics path where metrics are on, the two probes, five paths behind the check of the API key and
-- then the rate limiter, and six behind the check of the admin key; and all of them stand behind
-- recovery, request id, access log and CORS, in this order.
pub new_router-routes :
    (gin : GinLib) (c : Config) (r : Router)
    → new_router gin c ≡ some r
    → r.routes ≡ map (route_of (common c.metrics.enabled)) (rows c)
unfolding new_router with_metrics
new_router-routes gin c r = by_metrics c.metrics.enabled
  where
    by_metrics :
        (b : Bool)
        → admin_routes gin (
            v1_routes gin (
              health_routes gin (
                if b
                then on_engine gin get c.metrics.path scrape
                    (some (use_layer metrics (bare_engine gin)))
                else some (bare_engine gin))))
          ≡ some r
        → r.routes
          ≡ map
              (route_of (common b))
              ((if b then (get, c.metrics.path, scrape) ∷ [] else []) ++ fixed_rows)
    by_metrics true e =
        let r₀ = use_layer metrics (bare_engine gin) in
        let row : Row = (get, c.metrics.path, scrape) in
        (fixed-IsGrown gin r₀ (row ∷ []) (on_engine gin get c.metrics.path scrape (some r₀))
          (handle-IsGrown gin r₀ [] (some r₀) row (start-IsGrown gin r₀)) r e).1
    by_metrics false e =
        let r₀ = bare_engine gin in (fixed-IsGrown gin r₀ [] (some r₀) (start-IsGrown gin r₀) r e).1
