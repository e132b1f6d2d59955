-- ===== src/Api/WebServer/Registrations.antt =====
-- api/gin/webServer.go and api/groups/baseGroup.go: the registrations of one handler, over the loops of
-- `RegisterRoutes` and `registerRoutes`.
use mx_chain_notifier_go.Base.{
  ℕ, ◌≡◌, ◌≢◌, refl, sym, ◌∙◌, ap, subst, List, [], ◌∷◌, ◌++◌, append-nil, append_assoc,
  keep-append, All, Option, none, some, GoString, codes, str_eq, str_eq_iff, ◌==◌, ==_iff,
  if◌then◌else◌, lookup, string_eq, Unique, Bool-cases, arith, inl, inr,
}
use mx_chain_notifier_go.Config.{ApiRoutesConfig}
use mx_chain_notifier_go.Api.Groups.{
  Handler, push_events, revert_events, finalized_events, ws_handler, get_metrics,
  get_prometheus_metrics, BaseGroup, Registration, EndpointHandlerData, get_endpoint_status,
  register_endpoints, register_routes,
}
use mx_chain_notifier_go.Api.WebServer.{WebServer, register_groups}
use mx_chain_notifier_go.Api.WebServer.Served.{number, of_handler}

abbrev of_number : ℕ → Handler
of_number n =
    if n == 0
    then push_events
    else if n == 1
    then revert_events
    else if n == 2
    then finalized_events
    else if n == 3
    then ws_handler
    else if n == 4
    then get_metrics
    else get_prometheus_metrics

of_number-number : (h : Handler) → of_number (number h) ≡ h
of_number-number push_events = refl
of_number-number revert_events = refl
of_number-number finalized_events = refl
of_number-number ws_handler = refl
of_number-number get_metrics = refl
of_number-number get_prometheus_metrics = refl

number-injective : (g h : Handler) → number g ≡ number h → g ≡ h
number-injective g h e = sym (of_number-number g) ∙ ap of_number e ∙ of_number-number h

-- The registration of one endpoint, if it is open.
module _ (bg : BaseGroup) (base_path : GoString) (c : ApiRoutesConfig) where
  unfoldable pub single : EndpointHandlerData → List Registration
  single d = register_endpoints bg base_path c (d ∷ []) []

  all_of : List EndpointHandlerData → List Registration
  all_of [] = []
  all_of (d ∷ ds) = single d ++ all_of ds

  register_endpoints-single :
      (d : EndpointHandlerData) (ds : List EndpointHandlerData) (registered : List Registration)
      → register_endpoints bg base_path c (d ∷ ds) registered
        ≡ register_endpoints bg base_path c ds (registered ++ single d)
  unfolding register_endpoints single
  register_endpoints-single d ds registered =
      elim (Bool-cases (get_endpoint_status base_path d.path c).0) [
        | inl opened ↦ rw opened refl
        | inr closed ↦ rw closed (rw (append-nil registered) refl)
      ]

  register_endpoints-all_of :
      (ds : List EndpointHandlerData) (registered : List Registration)
      → register_endpoints bg base_path c ds registered ≡ registered ++ all_of ds
  unfolding register_endpoints all_of
  register_endpoints-all_of [] registered = sym (append-nil registered)
  register_endpoints-all_of (d ∷ ds) registered =
      register_endpoints-single d ds registered
      ∙ register_endpoints-all_of ds (registered ++ single d)
      ∙ append_assoc registered (single d) (all_of ds)

  of_handler-single :
      (h : Handler) (d : EndpointHandlerData)
      → of_handler h (single d) ≡ (if number d.handler == number h then single d else [])
  unfolding register_endpoints single
  of_handler-single h d = ground arith

  -- The endpoints of a handler alone.
  unfoldable pub all_for : Handler → List EndpointHandlerData → List Registration
  all_for h [] = []
  all_for h (d ∷ ds) = (if number d.handler == number h then single d else []) ++ all_for h ds

  of_handler-all_of :
      (h : Handler) (ds : List EndpointHandlerData) → of_handler h (all_of ds) ≡ all_for h ds
  unfolding all_of all_for
  of_handler-all_of h [] = refl
  of_handler-all_of h (d ∷ ds) =
      keep-append (λ r. number r.handler == number h) (single d) (all_of ds)
      ∙ rw (of_handler-single h d) (rw (of_handler-all_of h ds) refl)

  pub all_for-others :
      (h : Handler) (ds : List EndpointHandlerData)
      → All (λ d. d.handler ≢ h) ds
      → all_for h ds ≡ []
  unfolding all_for
  all_for-others h [] others = refl
  all_for-others h (d ∷ ds) others = ground (
    arith,
    ==_iff (number d.handler) (number h),
    number-injective d.handler h,
    others.0,
    all_for-others h ds others.1,
  )

module _ {R P H : Type 0} (group : GoString → GoString) (w : WebServer R P H) (h : Handler) where
  -- What a group adds for the handler.
  unfoldable pub added : GoString → BaseGroup → List Registration
  added name g = all_for g (group (codes "/" ++ name)) w.configs.api_routes_config h g.endpoints

  unfoldable pub added_by : GoString → Option BaseGroup → List Registration
  added_by name none = []
  added_by name (some g) = added name g

  register_routes-added :
      (name : GoString) (g : BaseGroup) (engine : List Registration)
      → of_handler h
          (register_routes g (group (codes "/" ++ name)) w.configs.api_routes_config engine)
        ≡ of_handler h engine ++ added name g
  unfolding register_routes added
  register_routes-added name g engine =
      let path = group (codes "/" ++ name) in
      let c = w.configs.api_routes_config in
      rw (register_endpoints-all_of g path c g.endpoints engine) (
        keep-append (λ r. number r.handler == number h) engine (all_of g path c g.endpoints)
        ∙ ap (λ rs. of_handler h engine ++ rs) (of_handler-all_of g path c h g.endpoints))

  -- Only the group under one name adds anything.
  pub register_groups-added :
      (name : GoString) (gs : List (GoString × BaseGroup)) (engine : List Registration)
      → Unique gs
      → ((other : GoString) (g : BaseGroup)
          → lookup other gs ≡ some g
          → other ≢ name
          → added other g ≡ [])
      → of_handler h (register_groups group w gs engine)
        ≡ of_handler h engine ++ added_by name (lookup name gs)
  unfolding register_groups lookup added_by
  register_groups-added name [] engine u nothing = sym (append-nil _)
  register_groups-added name ((j, g) ∷ gs) engine u nothing =
      let engine' = register_routes g (group (codes "/" ++ j)) w.configs.api_routes_config engine in
      let rest : of_handler h (register_groups group w gs engine')
          ≡ of_handler h engine' ++ added_by name (lookup name gs) =
        register_groups-added name gs engine' u.1 (λ other g' found differs.
          nothing other g' (ground (arith, found, u.0, str_eq_iff j other)) differs) in
      let here = register_routes-added j g engine in
      elim (Bool-cases (str_eq j name)) [
        | inl same ↦
            let at_name : j ≡ name = (str_eq_iff j name).0 same in
            let missing : lookup name gs ≡ none = subst (λ x. lookup x gs ≡ none) at_name u.0 in
            rw (rest, here, missing, same)
              (append-nil (of_handler h engine ++ added j g)
                ∙ ap (λ x. of_handler h engine ++ added x g) at_name)
        | inr differs ↦
            let none_added : added j g ≡ [] =
              nothing j g (ground (arith, str_eq_iff j j))
                (ground (arith, differs, str_eq_iff j name)) in
            rw (rest, here, none_added, differs) (rw (append-nil (of_handler h engine)) refl)
      ]
