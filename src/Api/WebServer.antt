-- ===== src/Api/WebServer.antt =====
-- api/gin/webServer.go and api/gin/httpServer.go: the web server, from its checks to its shutdown.
pub mod Served
pub mod Registrations
pub mod ByRoute
pub mod Homes
pub mod Routes
use mx_chain_notifier_go.Base.{
  List, [], ◌∷◌, ◌++◌, Bool, true, false, Option, none, some, GoString, codes, str_eq, contains,
  if◌then◌else◌, insert, string_eq,
}
use mx_chain_notifier_go.Errors.{
  Result, ok, err, panicked, ◌>>=◌, ◌>>◌, require, refuse_if, GoError, wrapped, nil_facade_handler,
  nil_payload_handler, nil_http_server, invalid_api_type,
}
use mx_chain_notifier_go.Common.{ws_publisher_type}
use mx_chain_notifier_go.Config.{Configs}
use mx_chain_notifier_go.Facade.{NotifierFacade}
use mx_chain_notifier_go.Api.Groups.{
  BaseGroup, Registration, register_routes, new_events_group, new_hub_group, new_status_group,
}

abbrev pub default_rest_interface : GoString
default_rest_interface = codes "localhost:5000"

abbrev pub events_group_id : GoString
events_group_id = codes "events"

abbrev pub hub_group_id : GoString
hub_group_id = codes "hub"

abbrev pub status_group_id : GoString
status_group_id = codes "status"

-- http.Server, with what its engine is to handle.
pub record HttpServer : Type 0 where
  pub addr : GoString
  pub handler : List Registration

-- webServer. Nothing sets its `cancelFunc`. `H` is the type of the payload handler.
pub record WebServer (R P H : Type 0) : Type 0 where
  pub facade : Option (NotifierFacade R P)
  pub payload_handler : Option H
  pub http_server : Option HttpServer
  pub groups : List (GoString × BaseGroup)
  pub configs : Configs
  pub was_triggered : Bool

-- `getWSAddr`, given the host.
unfoldable pub get_ws_addr : GoString → GoString
unfolding contains
get_ws_addr addr =
    if str_eq addr []
    then default_rest_interface
    else if contains addr (codes ":")
    then addr
    else codes ":" ++ addr

-- `NewHTTPServerWrapper`
unfoldable pub new_http_server_wrapper : Option HttpServer → Result HttpServer
new_http_server_wrapper server = require server nil_http_server

-- A group that is made under a condition goes into the map.
abbrev pub add_group :
    Bool
    → GoString
    → Result BaseGroup
    → List (GoString × BaseGroup)
    → Result (List (GoString × BaseGroup))
add_group false name made groups = ok groups
add_group true name made groups = made >>= λ group. ok (insert name group groups)

module _ {R P H : Type 0} where
  -- `NewWebServerHandler` with its `checkArgs`.
  unfoldable pub new_web_server_handler :
      Option (NotifierFacade R P) → Option H → Configs → Result (WebServer R P H)
  new_web_server_handler facade payload_handler configs = do
    f ← require facade nil_facade_handler
    refuse_if (str_eq configs.flags.publisher_type []) invalid_api_type
    h ← require payload_handler nil_payload_handler
    ok (record {
      facade = facade;
      payload_handler = payload_handler;
      http_server = none;
      groups = [];
      configs = configs;
      was_triggered = false;
    })

  -- `createGroups`, which gives the map.
  unfoldable pub create_groups : WebServer R P H → Result (List (GoString × BaseGroup))
  unfolding insert new_events_group new_status_group new_hub_group
  create_groups w = do
    groups ←
        add_group w.configs.main_config.connector_api.enabled events_group_id
          (new_events_group w.facade w.payload_handler) []
    groups' ← add_group true status_group_id (new_status_group w.facade) groups
    add_group (str_eq w.configs.flags.publisher_type ws_publisher_type) hub_group_id
        (new_hub_group w.facade) groups'

  -- `group` gives the base path of `ginEngine.Group`.
  module _ (group : GoString → GoString) where
    -- The loop of `registerRoutes`, over the groups in some order.
    unfoldable pub register_groups :
        WebServer R P H → List (GoString × BaseGroup) → List Registration → List Registration
    unfolding register_routes
    register_groups w [] engine = engine
    register_groups w ((group_name, group_handler) ∷ groups) engine = register_groups w groups (
        register_routes group_handler (group (codes "/" ++ group_name)) w.configs.api_routes_config
          engine)

    -- `Run`; `order` gives the order in which Go ranges over a map.
    unfoldable pub run_web_server :
        (List (GoString × BaseGroup) → List (GoString × BaseGroup))
        → WebServer R P H
        → Result (Unit {0}) × WebServer R P H
    unfolding create_groups register_groups get_ws_addr new_http_server_wrapper
    run_web_server order w = if w.was_triggered then (ok tt, w) else elim (create_groups w) [
      | err e ↦ (err e, w)
      | panicked ↦ (panicked, w)
      | ok groups ↦
          let w' : WebServer R P H = record w { groups = groups } in
          let server : HttpServer = record {
            addr = get_ws_addr w.configs.main_config.connector_api.host;
            handler = register_groups w' (order groups) [];
          } in
          elim (new_http_server_wrapper (some server)) [
            | err e ↦ (err e, w')
            | panicked ↦ (panicked, w')
            | ok s ↦ (ok tt, record w' { http_server = some s; was_triggered = true })
          ]
    ]

  -- `Close`, with the result of the server's `Shutdown`. A nil server panics.
  unfoldable pub close_web_server :
      (HttpServer → Option GoError) → WebServer R P H → Result (Unit {0})
  close_web_server shutdown w = elim w.http_server [
    | none ↦ panicked
    | some server ↦ elim (shutdown server) [
      | none ↦ ok tt
      | some e ↦ err (wrapped e (codes " while closing the http server in gin/webServer"))
    ]
  ]
