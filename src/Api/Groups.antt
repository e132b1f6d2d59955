-- ===== src/Api/Groups.antt =====
-- api/groups: the three groups of endpoints, and which of their endpoints gin is asked to handle.
use mx_chain_notifier_go.Base.{
  List, [], ◌∷◌, ◌++◌, Bool, false, not, ◌&&◌, Option, none, some, GoString, codes, str_eq,
  if◌then◌else◌, lookup, string_eq, split, last_part,
}
use mx_chain_notifier_go.Errors.{
  Result, ok, ◌>>=◌, require, wrapped, nil_facade_handler, nil_payload_handler,
}
use mx_chain_notifier_go.Config.{RouteConfig, ApiRoutesConfig}
use mx_chain_notifier_go.Facade.{NotifierFacade, get_connector_user_and_pass}

-- The methods that the groups register as handlers.
pub data Handler : Type 0 where
  push_events revert_events finalized_events ws_handler get_metrics get_prometheus_metrics : Handler

-- The function that does nothing, and `gin.BasicAuth` for one account.
pub data Middleware : Type 0 where
  pass_on : Middleware
  basic_auth : GoString → GoString → Middleware

-- shared.EndpointHandlerData
pub record EndpointHandlerData : Type 0 where
  pub path : GoString
  pub method : GoString
  pub handler : Handler

pub record BaseGroup : Type 0 where
  pub endpoints : List EndpointHandlerData
  pub additional_middlewares : List Middleware
  pub auth_middleware : Middleware

abbrev pub new_base_group : BaseGroup
new_base_group = record { endpoints = []; additional_middlewares = []; auth_middleware = pass_on }

-- A call of `Handle` on the gin group with a base path.
pub record Registration : Type 0 where
  pub base_path : GoString
  pub method : GoString
  pub path : GoString
  pub middlewares : List Middleware
  pub handler : Handler

-- The loop of `getEndpointStatus` over the routes.
unfoldable pub route_status : GoString → List RouteConfig → Bool × Bool
route_status path [] = (false, false)
route_status path (route ∷ routes) =
    if str_eq route.name path then (route.is_open, route.auth) else route_status path routes

-- `getEndpointStatus`, for a gin group with a base path.
unfoldable pub get_endpoint_status : GoString → GoString → ApiRoutesConfig → Bool × Bool
unfolding lookup route_status split
get_endpoint_status base_path path api_config =
    let (part, parts) = split b'/' base_path in
    elim (lookup (last_part part parts) api_config.api_packages) [
      | none ↦ (false, false)
      | some group ↦ route_status path group.routes
    ]

-- The loop of `RegisterRoutes`, on the calls made so far.
unfoldable pub register_endpoints :
    BaseGroup
    → GoString
    → ApiRoutesConfig
    → List EndpointHandlerData
    → List Registration
    → List Registration
unfolding get_endpoint_status
register_endpoints bg base_path api_config [] registered = registered
register_endpoints bg base_path api_config (handler_data ∷ rest) registered =
    let (is_open, is_auth_enabled) = get_endpoint_status base_path handler_data.path api_config in
    let auth = if is_auth_enabled then bg.auth_middleware ∷ [] else [] in
    let handled : Registration = record {
      base_path = base_path;
      method = handler_data.method;
      path = handler_data.path;
      middlewares = auth ++ bg.additional_middlewares;
      handler = handler_data.handler;
    } in
    register_endpoints bg base_path api_config rest
      (if is_open then registered ++ handled ∷ [] else registered)

-- `RegisterRoutes`
unfoldable pub register_routes :
    BaseGroup → GoString → ApiRoutesConfig → List Registration → List Registration
unfolding register_endpoints
register_routes bg base_path api_config registered =
    register_endpoints bg base_path api_config bg.endpoints registered

abbrev pub method_get : GoString
method_get = codes "GET"

abbrev pub method_post : GoString
method_post = codes "POST"

-- The method that the events group's `createMiddlewares` leaves in place.
unfoldable pub create_middlewares : GoString × GoString → Middleware
create_middlewares (user, pass) =
    if not (str_eq user []) && not (str_eq pass []) then basic_auth user pass else pass_on

abbrev pub events_endpoints : List EndpointHandlerData
events_endpoints =
    record { method = method_post; path = codes "/push"; handler = push_events }
    ∷ record { method = method_post; path = codes "/revert"; handler = revert_events }
    ∷ record { method = method_post; path = codes "/finalized"; handler = finalized_events }
    ∷ []

abbrev pub hub_endpoints : List EndpointHandlerData
hub_endpoints = record { method = method_get; path = codes "/ws"; handler = ws_handler } ∷ []

abbrev pub status_endpoints : List EndpointHandlerData
status_endpoints =
    record { path = codes "/metrics"; handler = get_metrics; method = method_get }
    ∷ record {
      path = codes "/prometheus-metrics";
      handler = get_prometheus_metrics;
      method = method_get;
    }
    ∷ []

module _ {R P : Type 0} where
  -- `NewEventsGroup` with its `checkEventsGroupArgs`.
  unfoldable pub new_events_group :
      {H : Type 0} → Option (NotifierFacade R P) → Option H → Result BaseGroup
  unfolding create_middlewares get_connector_user_and_pass
  new_events_group facade payload_handler = do
    f ← require facade (wrapped nil_facade_handler (codes " for events group"))
    h ← require payload_handler (wrapped nil_payload_handler (codes " for events group"))
    ok (record new_base_group {
      auth_middleware = create_middlewares (get_connector_user_and_pass f);
      endpoints = events_endpoints;
    })

  -- `NewHubGroup`
  unfoldable pub new_hub_group : Option (NotifierFacade R P) → Result BaseGroup
  new_hub_group facade = do
    f ← require facade (wrapped nil_facade_handler (codes " for hub group"))
    ok (record new_base_group { endpoints = hub_endpoints })

  -- `NewStatusGroup`
  unfoldable pub new_status_group : Option (NotifierFacade R P) → Result BaseGroup
  new_status_group facade = do
    f ← require facade (wrapped nil_facade_handler (codes " for status group"))
    ok (record new_base_group { endpoints = status_endpoints })
