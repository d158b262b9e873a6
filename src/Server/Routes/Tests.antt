-- ===== src/Server/Routes/Tests.antt =====
-- The routes for a configuration with metrics.
use grok_auth_proxy.Prelude.{◌≡◌, refl, Bool, true, false, not, ◌&&◌, none, some, map, any}
use grok_auth_proxy.Text.{codes, ◌==◌, strings}
use grok_auth_proxy.Config.Loading.{default_config}
use grok_auth_proxy.Server.Routes.{
  Method, get, post, delete, GinLib, handle, with_metrics, health_routes, v1_routes, admin_routes,
  new_router, Router,
}
use grok_auth_proxy.Server.Routes.Guarded.{common, route_of, rows, new_router-routes}

routing : Unit {0}
unfolding strings handle with_metrics health_routes v1_routes admin_routes new_router
routing = tt

abbrev is_method : Method → Method → Bool
is_method get get = true
is_method post post = true
is_method delete delete = true
is_method _ _ = false

-- A path stands once for each method.
abbrev no_duplicates : GinLib
no_duplicates = record {
  accepts =
      λ routes method path. not (any (λ r. is_method r.method method && r.path == path) routes);
}

abbrev router : Router
router = record {
  layers = common true;
  routes = map (route_of (common true)) (rows default_config);
}

routed : new_router no_duplicates default_config ≡ some router
unfolding routing
routed = refl

new_router-routes_example : router.routes ≡ map (route_of (common true)) (rows default_config)
new_router-routes_example = new_router-routes no_duplicates default_config router routed

-- A metrics path that is taken, which the validation lets through.
path_taken :
    new_router no_duplicates
      (record default_config { metrics = record default_config.metrics { path = codes "/health" } })
    ≡ none
unfolding routing
path_taken = refl
