-- ===== src/Api/WebServer/Served.antt =====
-- api/groups and the API part of the configuration: how each endpoint is to be served.
use mx_chain_notifier_go.Base.{
  List, [], ◌∷◌, ◌++◌, keep, Bool, true, not, ◌&&◌, Option, none, some, GoString, codes, str_eq,
  if◌then◌else◌, lookup, string_eq, ℕ, ◌==◌,
}
use mx_chain_notifier_go.Config.{Configs, RouteConfig}
use mx_chain_notifier_go.Api.Groups.{
  Handler, push_events, revert_events, finalized_events, ws_handler, get_metrics,
  get_prometheus_metrics, Middleware, pass_on, basic_auth, Registration,
}

-- The group of a handler, its path in the group, and its method.
abbrev pub place_of : Handler → GoString × GoString × GoString
place_of push_events = (codes "events", codes "/push", codes "POST")
place_of revert_events = (codes "events", codes "/revert", codes "POST")
place_of finalized_events = (codes "events", codes "/finalized", codes "POST")
place_of ws_handler = (codes "hub", codes "/ws", codes "GET")
place_of get_metrics = (codes "status", codes "/metrics", codes "GET")
place_of get_prometheus_metrics = (codes "status", codes "/prometheus-metrics", codes "GET")

-- Whether the configuration has the handler's group.
abbrev pub has_group : Configs → Handler → Bool
has_group c push_events = c.main_config.connector_api.enabled
has_group c revert_events = c.main_config.connector_api.enabled
has_group c finalized_events = c.main_config.connector_api.enabled
has_group c ws_handler = str_eq c.flags.publisher_type (codes "ws")
has_group c _ = true

-- What the `Auth` of a route puts before the handler: credentials for the connector's endpoints, if
-- both are set.
abbrev pub auth_of : GoString → GoString → Handler → Middleware
auth_of user pass push_events =
    if not (str_eq user []) && not (str_eq pass []) then basic_auth user pass else pass_on
auth_of user pass revert_events =
    if not (str_eq user []) && not (str_eq pass []) then basic_auth user pass else pass_on
auth_of user pass finalized_events =
    if not (str_eq user []) && not (str_eq pass []) then basic_auth user pass else pass_on
auth_of user pass _ = pass_on

-- The first route of a name.
unfoldable pub find_route : GoString → List RouteConfig → Option RouteConfig
find_route name [] = none
find_route name (route ∷ routes) =
    if str_eq route.name name then some route else find_route name routes

-- How a handler is served: by the first route of its name in its group's package, if that is open.
unfoldable pub served : Configs → GoString → GoString → Handler → List Registration
unfolding lookup find_route
served c user pass h =
    let place = place_of h in
    if has_group c h
    then elim (lookup place.0 c.api_routes_config.api_packages) [
      | none ↦ []
      | some routes ↦ elim (find_route place.1 routes.routes) [
        | none ↦ []
        | some route ↦
            if route.is_open
            then record {
              base_path = codes "/" ++ place.0;
              method = place.2;
              path = place.1;
              middlewares = if route.auth then auth_of user pass h ∷ [] else [];
              handler = h;
            }
              ∷ []
            else []
      ]
    ]
    else []

abbrev pub number : Handler → ℕ
number push_events = 0
number revert_events = 1
number finalized_events = 2
number ws_handler = 3
number get_metrics = 4
number get_prometheus_metrics = 5

-- The registrations of a handler.
abbrev pub of_handler : Handler → List Registration → List Registration
of_handler h = keep (λ r. number r.handler == number h)
