-- ===== src/Api/WebServer/ByRoute.antt =====
-- api/groups/baseGroup.go: `getEndpointStatus`, and the registration that an endpoint gets by it.
use mx_chain_notifier_go.Base.{
  ◌≡◌, refl, ◌∙◌, ap, List, [], ◌∷◌, ◌++◌, Bool, false, Option, none, some, GoString, str_eq,
  if◌then◌else◌, lookup, string_eq, Bool-cases, inl, inr, split, last_part,
}
use mx_chain_notifier_go.Config.{RouteConfig, ApiPackageConfig, ApiRoutesConfig}
use mx_chain_notifier_go.Api.Groups.{
  Middleware, BaseGroup, Registration, EndpointHandlerData, route_status, get_endpoint_status,
  register_endpoints,
}
use mx_chain_notifier_go.Api.WebServer.Served.{find_route}
use mx_chain_notifier_go.Api.WebServer.Registrations.{single}

abbrev status_of : Option RouteConfig → Bool × Bool
status_of none = (false, false)
status_of (some route) = (route.is_open, route.auth)

route_status-find_route :
    (path : GoString) (routes : List RouteConfig)
    → route_status path routes ≡ status_of (find_route path routes)
unfolding route_status find_route
route_status-find_route path [] = refl
route_status-find_route path (route ∷ routes) = elim (Bool-cases (str_eq route.name path)) [
  | inl same ↦ rw same refl
  | inr other ↦ rw other (route_status-find_route path routes)
]

-- The first route of a name in a group's package.
abbrev pub find_in : GoString → Option ApiPackageConfig → Option RouteConfig
find_in path none = none
find_in path (some routes) = find_route path routes.routes

lookup-status :
    (path : GoString) (o : Option ApiPackageConfig)
    → (elim o [ none ↦ (false, false) | some group ↦ route_status path group.routes ])
      ≡ status_of (find_in path o)
lookup-status path none = refl
lookup-status path (some routes) = route_status-find_route path routes.routes

get_endpoint_status-find_in :
    (base_path name path : GoString) (c : ApiRoutesConfig)
    → last_part (split b'/' base_path).0 (split b'/' base_path).1 ≡ name
    → get_endpoint_status base_path path c ≡ status_of (find_in path (lookup name c.api_packages))
unfolding get_endpoint_status
get_endpoint_status-find_in base_path name path c last =
    lookup-status path _ ∙ ap (λ n. status_of (find_in path (lookup n c.api_packages))) last

-- The registration of an endpoint, by its route.
abbrev pub by_route :
    Middleware → GoString → EndpointHandlerData → Option RouteConfig → List Registration
by_route auth base_path d none = []
by_route auth base_path d (some route) =
    if route.is_open
    then record {
      base_path = base_path;
      method = d.method;
      path = d.path;
      middlewares = if route.auth then auth ∷ [] else [];
      handler = d.handler;
    }
      ∷ []
    else []

by_status :
    (auth : Middleware) (base_path : GoString) (d : EndpointHandlerData) (o : Option RouteConfig)
    → (if (status_of o).0
        then record {
          base_path = base_path;
          method = d.method;
          path = d.path;
          middlewares = (if (status_of o).1 then auth ∷ [] else []) ++ [];
          handler = d.handler;
        }
          ∷ []
        else [])
      ≡ by_route auth base_path d o
by_status auth base_path d none = refl
by_status auth base_path d (some route) = elim (Bool-cases route.auth) [
  | inl a ↦ rw a refl
  | inr a ↦ rw a refl
]

pub single-by_route :
    (bg : BaseGroup) (base_path name : GoString) (c : ApiRoutesConfig) (d : EndpointHandlerData)
    → last_part (split b'/' base_path).0 (split b'/' base_path).1 ≡ name
    → bg.additional_middlewares ≡ []
    → single bg base_path c d
      ≡ by_route bg.auth_middleware base_path d (find_in d.path (lookup name c.api_packages))
unfolding single register_endpoints
single-by_route bg base_path name c d last plain =
    rw (get_endpoint_status-find_in base_path name d.path c last, plain)
      (by_status bg.auth_middleware base_path d (find_in d.path (lookup name c.api_packages)))
