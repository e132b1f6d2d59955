-- ===== src/Api/WebServer/Homes.antt =====
-- api/groups and `createGroups` of api/gin/webServer.go: the group of each handler, and what it registers.
use mx_chain_notifier_go.Base.{
  ◌≡◌, refl, ◌∙◌, List, [], ◌∷◌, ◌++◌, All, Bool, true, false, none, some, GoString, codes, str_eq,
  if◌then◌else◌, lookup, string_eq, Unique, Bool-cases, Option-cases, arith, inl, inr, split,
  last_part, append-nil,
}
use mx_chain_notifier_go.Config.{Configs, ApiRoutesConfig}
use mx_chain_notifier_go.Api.Groups.{
  Handler, push_events, revert_events, finalized_events, ws_handler, get_metrics,
  get_prometheus_metrics, Middleware, pass_on, BaseGroup, new_base_group, EndpointHandlerData,
  create_middlewares, events_endpoints, hub_endpoints, status_endpoints,
}
use mx_chain_notifier_go.Api.WebServer.Served.{place_of, find_route, served, auth_of, has_group}
use mx_chain_notifier_go.Api.WebServer.Registrations.{all_for}
use mx_chain_notifier_go.Api.WebServer.ByRoute.{find_in, by_route, single-by_route}

-- The groups of the web server, by whether the connector is enabled and the publisher is "ws".
abbrev events_group : Middleware → BaseGroup
events_group auth = record new_base_group { auth_middleware = auth; endpoints = events_endpoints }

abbrev hub_group : BaseGroup
hub_group = record new_base_group { endpoints = hub_endpoints }

abbrev status_group : BaseGroup
status_group = record new_base_group { endpoints = status_endpoints }

abbrev pub groups_of : Middleware → Bool → Bool → List (GoString × BaseGroup)
groups_of auth true true =
    (codes "events", events_group auth)
    ∷ (codes "status", status_group)
    ∷ (codes "hub", hub_group)
    ∷ []
groups_of auth true false =
    (codes "events", events_group auth) ∷ (codes "status", status_group) ∷ []
groups_of auth false true = (codes "status", status_group) ∷ (codes "hub", hub_group) ∷ []
groups_of auth false false = (codes "status", status_group) ∷ []

pub groups_of-Unique : (auth : Middleware) (e w : Bool) → Unique (groups_of auth e w)
unfolding lookup str_eq
groups_of-Unique auth true true = (refl, (refl, (refl, tt)))
groups_of-Unique auth true false = (refl, (refl, tt))
groups_of-Unique auth false true = (refl, (refl, tt))
groups_of-Unique auth false false = (refl, tt)

-- Every endpoint of a group belongs there.
abbrev pub IsHome : GoString → BaseGroup → Type 0
IsHome name g = All (λ d. (place_of d.handler).0 ≡ name) g.endpoints

pub groups_of-IsHome :
    (auth : Middleware) (e w : Bool) → All (λ entry. IsHome entry.0 entry.1) (groups_of auth e w)
groups_of-IsHome auth true true =
    ((refl, (refl, (refl, tt))), ((refl, (refl, tt)), ((refl, tt), tt)))
groups_of-IsHome auth true false = ((refl, (refl, (refl, tt))), ((refl, (refl, tt)), tt))
groups_of-IsHome auth false true = ((refl, (refl, tt)), ((refl, tt), tt))
groups_of-IsHome auth false false = ((refl, (refl, tt)), tt)

abbrev pub home_of : Middleware → Handler → BaseGroup
home_of auth push_events = events_group auth
home_of auth revert_events = events_group auth
home_of auth finalized_events = events_group auth
home_of auth ws_handler = hub_group
home_of auth get_metrics = status_group
home_of auth get_prometheus_metrics = status_group

abbrev pub is_made : Handler → Bool → Bool → Bool
is_made push_events e w = e
is_made revert_events e w = e
is_made finalized_events e w = e
is_made ws_handler e w = w
is_made _ e w = true

pub lookup-groups_of :
    (auth : Middleware) (e w : Bool) (h : Handler)
    → lookup (place_of h).0 (groups_of auth e w)
      ≡ (if is_made h e w then some (home_of auth h) else none)
unfolding lookup str_eq
lookup-groups_of auth true true h = ground arith
lookup-groups_of auth true false h = ground arith
lookup-groups_of auth false true h = ground arith
lookup-groups_of auth false false h = ground arith

-- The middleware of the routes with Auth, given the one of the events group.
abbrev pub auth_at : Middleware → Handler → Middleware
auth_at auth push_events = auth
auth_at auth revert_events = auth
auth_at auth finalized_events = auth
auth_at auth _ = pass_on

abbrev pub endpoint_of : Handler → EndpointHandlerData
endpoint_of h = record { path = (place_of h).1; method = (place_of h).2; handler = h }

module _ (auth : Middleware) (base_path : GoString) (c : ApiRoutesConfig) where
  pub home-by_route :
      (h : Handler)
      → last_part (split b'/' base_path).0 (split b'/' base_path).1 ≡ (place_of h).0
      → all_for (home_of auth h) base_path c h (home_of auth h).endpoints
        ≡ by_route
            (auth_at auth h)
            base_path
            (endpoint_of h)
            (find_in (place_of h).1 (lookup (place_of h).0 c.api_packages))
  unfolding all_for
  home-by_route push_events last =
      append-nil _
      ∙ single-by_route (events_group auth) base_path _ c (endpoint_of push_events) last refl
  home-by_route revert_events last =
      append-nil _
      ∙ single-by_route (events_group auth) base_path _ c (endpoint_of revert_events) last refl
  home-by_route finalized_events last =
      append-nil _
      ∙ single-by_route (events_group auth) base_path _ c (endpoint_of finalized_events) last refl
  home-by_route ws_handler last =
      append-nil _ ∙ single-by_route hub_group base_path _ c (endpoint_of ws_handler) last refl
  home-by_route get_metrics last =
      append-nil _ ∙ single-by_route status_group base_path _ c (endpoint_of get_metrics) last refl
  home-by_route get_prometheus_metrics last =
      append-nil _
      ∙ single-by_route status_group base_path _ c (endpoint_of get_prometheus_metrics) last refl

pub last-place_of :
    (h : Handler)
    → last_part
        (split b'/' (codes "/" ++ (place_of h).0)).0
        (split b'/' (codes "/" ++ (place_of h).0)).1
      ≡ (place_of h).0
unfolding split
last-place_of h = ground arith

auth_at-auth_of :
    (user pass : GoString) (h : Handler)
    → auth_at (create_middlewares (user, pass)) h ≡ auth_of user pass h
unfolding create_middlewares
auth_at-auth_of user pass h = ground arith

-- The description of `served`, from the route that was found.
pub served-by_route :
    (c : Configs) (user pass : GoString) (h : Handler)
    → served c user pass h ≡ (
        if has_group c h
        then by_route
            (auth_at (create_middlewares (user, pass)) h)
            (codes "/" ++ (place_of h).0)
            (endpoint_of h)
            (find_in (place_of h).1 (lookup (place_of h).0 c.api_routes_config.api_packages))
        else [])
unfolding served
served-by_route c user pass h =
    rw (auth_at-auth_of user pass h) (elim (Bool-cases (has_group c h)) [
      | inr absent ↦ rw absent refl
      | inl present ↦
          rw present (elim (Option-cases (lookup (place_of h).0 c.api_routes_config.api_packages)) [
            | inl missing ↦ rw missing refl
            | inr (routes, found) ↦
                rw found (elim (Option-cases (find_route (place_of h).1 routes.routes)) [
                  | inl no_route ↦ rw no_route refl
                  | inr (route, there) ↦ rw there refl
                ])
          ])
    ])
