-- ===== src/Api/WebServer/Routes.antt =====
-- api/gin/webServer.go and api/groups: which endpoint is served, and behind which authentication.
use mx_chain_notifier_go.Base.{
  ◌≡◌, ◌≢◌, refl, sym, ◌∙◌, ap, subst, List, [], ◌∷◌, ◌++◌, All, Bool, true, false, none, some,
  GoString, codes, str_eq, if◌then◌else◌, lookup, string_eq, Unique, lookup-All, Bool-cases, arith,
  inl, inr, insert,
}
use mx_chain_notifier_go.Errors.{ok}
use mx_chain_notifier_go.Common.{ws_publisher_type}
use mx_chain_notifier_go.Config.{Configs}
use mx_chain_notifier_go.Facade.{NotifierFacade, get_connector_user_and_pass}
use mx_chain_notifier_go.Api.Groups.{
  Handler, Middleware, BaseGroup, EndpointHandlerData, create_middlewares, new_events_group,
  new_hub_group, new_status_group,
}
use mx_chain_notifier_go.Api.WebServer.{
  HttpServer, WebServer, get_ws_addr, new_web_server_handler, create_groups, register_groups,
  run_web_server, new_http_server_wrapper,
}
use mx_chain_notifier_go.Api.WebServer.Served.{place_of, served, of_handler, has_group}
use mx_chain_notifier_go.Api.WebServer.Registrations.{
  all_for-others, added, added_by, register_groups-added,
}
use mx_chain_notifier_go.Api.WebServer.ByRoute.{find_in, by_route}
use mx_chain_notifier_go.Api.WebServer.Homes.{
  groups_of, groups_of-Unique, IsHome, groups_of-IsHome, is_made, lookup-groups_of, home-by_route,
  last-place_of, served-by_route, auth_at, endpoint_of,
}

-- An order in which Go may range over a map: the same entries, each once.
abbrev pub IsOrder : (List (GoString × BaseGroup) → List (GoString × BaseGroup)) → Type 0
IsOrder order =
    (gs : List (GoString × BaseGroup))
    → Unique gs
    → Unique (order gs) × ((name : GoString) → lookup name (order gs) ≡ lookup name gs)

module _ {R P H : Type 0} where
  create_groups-groups_of :
      (w : WebServer R P H) (f : NotifierFacade R P) (p : H)
      → w.facade ≡ some f
      → w.payload_handler ≡ some p
      → create_groups w
        ≡ ok (
            groups_of
              (create_middlewares (get_connector_user_and_pass f))
              w.configs.main_config.connector_api.enabled
              (str_eq w.configs.flags.publisher_type ws_publisher_type))
  unfolding create_groups new_events_group new_hub_group new_status_group insert str_eq
  create_groups-groups_of w f p is_f is_p = ground (arith, is_f, is_p)

  module _ (group : GoString → GoString) (w : WebServer R P H) (h : Handler) where
    -- Another group adds nothing for the handler.
    added-others :
        (other : GoString) (g : BaseGroup)
        → IsHome other g
        → other ≢ (place_of h).0
        → added group w h other g ≡ []
    unfolding added
    added-others other g home differs =
        all_for-others g (group (codes "/" ++ other)) w.configs.api_routes_config h g.endpoints
          (not_here g.endpoints home)
      where
        not_here :
            (ds : List EndpointHandlerData)
            → All (λ d. (place_of d.handler).0 ≡ other) ds
            → All (λ d. d.handler ≢ h) ds
        not_here [] home' = tt
        not_here (d ∷ ds) home' =
            (λ same. differs (sym home'.0 ∙ ap (λ x. (place_of x).0) same), not_here ds home'.1)

    added-home :
        (auth : Middleware) (e p : Bool) (configs : Configs)
        → w.configs ≡ configs
        → is_made h e p ≡ has_group configs h
        → group (codes "/" ++ (place_of h).0) ≡ codes "/" ++ (place_of h).0
        → added_by group w h (place_of h).0 (lookup (place_of h).0 (groups_of auth e p)) ≡ (
            if has_group configs h
            then by_route (auth_at auth h) (codes "/" ++ (place_of h).0) (endpoint_of h) (
                find_in
                  (place_of h).1
                  (lookup (place_of h).0 configs.api_routes_config.api_packages))
            else [])
    unfolding added added_by
    added-home auth e p configs same made path =
        rw (lookup-groups_of auth e p h, made)
          (elim (Bool-cases (has_group configs h)) [
            | inr absent ↦ rw absent refl
            | inl present ↦ rw present (
                rw (path, same)
                  (home-by_route auth (codes "/" ++ (place_of h).0) configs.api_routes_config h
                    (last-place_of h)))
          ])

  register_groups-served :
      (group : GoString → GoString)
      (order : List (GoString × BaseGroup) → List (GoString × BaseGroup)) (w : WebServer R P H)
      (user pass : GoString) (h : Handler)
      → IsOrder order
      → group (codes "/" ++ (place_of h).0) ≡ codes "/" ++ (place_of h).0
      → of_handler h (
          register_groups group w
            (order (
              groups_of
                (create_middlewares (user, pass))
                w.configs.main_config.connector_api.enabled
                (str_eq w.configs.flags.publisher_type ws_publisher_type)))
            [])
        ≡ served w.configs user pass h
  register_groups-served group order w user pass h ordered path =
      let auth = create_middlewares (user, pass) in
      let e = w.configs.main_config.connector_api.enabled in
      let p = str_eq w.configs.flags.publisher_type ws_publisher_type in
      let gs = groups_of auth e p in
      let (unique, same) = ordered gs (groups_of-Unique auth e p) in
      let made : is_made h e p ≡ has_group w.configs h = ground arith in
      register_groups-added group w h (place_of h).0 (order gs) [] unique (λ other g found differs.
        added-others group w h other g
          (lookup-All IsHome gs (groups_of-IsHome auth e p) (sym (same other) ∙ found)) differs)
      ∙ ap (added_by group w h (place_of h).0) (same (place_of h).0)
      ∙ added-home group w h auth e p w.configs refl made path
      ∙ sym (served-by_route w.configs user pass h)

  -- The web server as its constructor makes it.
  abbrev fresh : NotifierFacade R P → H → Configs → WebServer R P H
  fresh facade payload_handler configs = record {
    facade = some facade;
    payload_handler = some payload_handler;
    http_server = none;
    groups = [];
    configs = configs;
    was_triggered = false;
  }

  new_web_server_handler-fresh :
      (facade : NotifierFacade R P) (payload_handler : H) (configs : Configs) (w : WebServer R P H)
      → new_web_server_handler (some facade) (some payload_handler) configs ≡ ok w
      → fresh facade payload_handler configs ≡ w
  unfolding new_web_server_handler
  new_web_server_handler-fresh facade payload_handler configs w made =
      elim (Bool-cases (str_eq configs.flags.publisher_type [])) [
        | inl empty ↦ absurd (ground (arith, empty, made))
        | inr named ↦ ground (arith, named, made)
      ]

  -- A web server that its constructor accepts runs without an error, on the configured address, whatever
  -- the order in which its groups are visited; it asks gin to handle each handler once, by the first
  -- route of its name in the package of its group, or not at all, where the group is not made, has no
  -- such route, or the route is closed. A route with Auth asks for the credentials only in the events
  -- group, and only if both are set. A second run changes nothing.
  pub run_web_server-served :
      (group : GoString → GoString)
      (order : List (GoString × BaseGroup) → List (GoString × BaseGroup))
      (facade : NotifierFacade R P) (payload_handler : H) (configs : Configs) (w : WebServer R P H)
      → ((h : Handler) → group (codes "/" ++ (place_of h).0) ≡ codes "/" ++ (place_of h).0)
      → IsOrder order
      → new_web_server_handler (some facade) (some payload_handler) configs ≡ ok w
      → (server : HttpServer) × (w' : WebServer R P H) × (run_web_server group order w
          ≡ (ok tt, w'))
        × (w'.http_server ≡ some server)
        × (server.addr ≡ get_ws_addr configs.main_config.connector_api.host)
        × ((h : Handler)
            → of_handler h server.handler
              ≡ served configs facade.config.username facade.config.password h)
        × (run_web_server group order w' ≡ (ok tt, w'))
  unfolding run_web_server new_web_server_handler new_http_server_wrapper
      get_connector_user_and_pass
  run_web_server-served group order facade payload_handler configs w path ordered made =
      let w0 : WebServer R P H = fresh facade payload_handler configs in
      let user = facade.config.username in
      let pass = facade.config.password in
      let gs : List (GoString × BaseGroup) =
        groups_of (create_middlewares (user, pass)) configs.main_config.connector_api.enabled
          (str_eq configs.flags.publisher_type ws_publisher_type) in
      let server : HttpServer = record {
        addr = get_ws_addr configs.main_config.connector_api.host;
        handler = register_groups group w0 (order gs) [];
      } in
      let w1 : WebServer R P H = record w0 {
        groups = gs;
        http_server = some server;
        was_triggered = true;
      } in
      let ran : run_web_server group order w0 ≡ (ok tt, w1) =
        rw (create_groups-groups_of w0 facade payload_handler refl refl) refl in
      (
        server,
        w1,
        subst (λ x. run_web_server group order x ≡ (ok tt, w1))
            (new_web_server_handler-fresh facade payload_handler configs w made) ran,
        refl,
        refl,
        λ h. register_groups-served group order w0 user pass h ordered (path h),
        refl,
      )
