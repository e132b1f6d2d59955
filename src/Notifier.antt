-- ===== src/Notifier.antt =====
-- notifier/notifierRunner.go: the components are made in order, run, and closed on a signal.
pub mod Setup
pub mod Shutdown
pub mod Refusal
use mx_chain_notifier_go.Base.{ℕ, List, Bool, true, false, Option, none, some, GoString}
use mx_chain_notifier_go.Errors.{Result, ok, err, panicked, GoError, nil_configs}
use mx_chain_notifier_go.Config.{Configs}
use mx_chain_notifier_go.Metrics.{new_status_metrics}
use mx_chain_notifier_go.Process.Interface.{Publisher, LockService}
use mx_chain_notifier_go.Process.EventsHandler.{World, EventsHandler, new_events_handler}
use mx_chain_notifier_go.Process.EventsInterceptor.{PubkeyConverter}
use mx_chain_notifier_go.Process.PayloadHandler.{DataProcessors}
use mx_chain_notifier_go.Process.Publisher.{PublisherState, run_loop, close_loop}
use mx_chain_notifier_go.Rabbit.Client.{Amqp}
use mx_chain_notifier_go.Facade.{NotifierFacade, new_notifier_facade}
use mx_chain_notifier_go.Api.Groups.{BaseGroup}
use mx_chain_notifier_go.Api.WebServer.{HttpServer, WebServer, run_web_server, close_web_server}
use mx_chain_notifier_go.Factory.{
  Marshalizer, AnyHub, PublisherHandler, create_hub, create_publisher, create_ws_handler,
}
use mx_chain_notifier_go.Factory.Services.{
  RedisPackage, WebSocketHosts, WsClient, create_lock_service, create_events_interceptor,
  create_web_server_handler, create_ws_observer_connector, close_ws_client,
}
use mx_chain_notifier_go.Notifier.Setup.{Action, ◌>>=◌, lift}

-- What the runner builds on: the packages behind redis, amqp, the websocket hosts, gin and the
-- standard library, the clock and the fuel of the loops, the Broadcast methods of the publisher, and
-- the objects behind the websocket handler and the metrics.
pub record Packages (R A N P : Type 0) : Type 0 where
  pub redis : RedisPackage R
  pub amqp : Amqp A
  pub hosts : WebSocketHosts (DataProcessors (World R P)) N
  pub new_marshalizer : GoString → Result Marshalizer
  pub new_bech32 : ℕ → GoString → Result PubkeyConverter
  pub clock : ℕ → ℕ
  pub fuel : ℕ
  pub broadcasts : Publisher P
  pub group : GoString → GoString
  pub order : List (GoString × BaseGroup) → List (GoString × BaseGroup)
  pub shutdown : HttpServer → Option GoError

-- The state outside, and the components that have been started.
pub record System (R A N P : Type 0) : Type 0 where
  pub redis : R
  pub amqp : A
  pub net : N
  pub publisher : Option PublisherState
  pub web_server : Option (WebServer R P (DataProcessors (World R P)))

-- `NewNotifierRunner`
unfoldable pub new_notifier_runner : Option Configs → Result Configs
new_notifier_runner none = err nil_configs
new_notifier_runner (some cfgs) = ok cfgs

module _ {R A N P : Type 0} where
  -- Calls on a part of the state.
  unfoldable pub on_redis : {X : Type 0} → (R → Result X × R) → Action (System R A N P) X
  on_redis call s = let (x, r) = call s.redis in (x, record s { redis = r })

  unfoldable pub on_amqp : {X : Type 0} → (A → Result X × A) → Action (System R A N P) X
  on_amqp call s = let (x, a) = call s.amqp in (x, record s { amqp = a })

  unfoldable pub on_net : {X : Type 0} → (N → Result X × N) → Action (System R A N P) X
  on_net call s = let (x, n) = call s.net in (x, record s { net = n })

  -- `publisher.Run()`
  unfoldable pub run_publisher : PublisherState → Action (System R A N P) PublisherState
  run_publisher p s =
      let (result, p') = run_loop p in
      (
        elim result [ ok u ↦ ok p' | err e ↦ err e | panicked ↦ panicked ],
        record s { publisher = some p' },
      )

  module _ (env : Packages R A N P) where
    -- `webServer.Run()`
    unfoldable pub run_server :
        WebServer R P (DataProcessors (World R P))
        → Action (System R A N P) (WebServer R P (DataProcessors (World R P)))
    run_server w s =
        let (result, w') = run_web_server env.group env.order w in
        (
          elim result [ ok u ↦ ok w' | err e ↦ err e | panicked ↦ panicked ],
          record s { web_server = some w' },
        )

    -- `wsConnector.Close()`
    unfoldable pub close_connector : WsClient → Action (System R A N P) (Unit {0})
    unfolding close_ws_client
    close_connector c s =
        let (e, n) = close_ws_client env.hosts c s.net in
        (elim e [ none ↦ ok tt | some error ↦ err error ], record s { net = n })

    -- `publisher.Close()`
    unfoldable pub close_publisher : PublisherState → Action (System R A N P) (Unit {0})
    close_publisher p s =
        let (result, p') = close_loop p in (result, record s { publisher = some p' })

    -- `waitForGracefulShutdown`, once the signal has come.
    unfoldable pub wait_for_graceful_shutdown :
        WebServer R P (DataProcessors (World R P))
        → PublisherState
        → WsClient
        → Action (System R A N P) (Unit {0})
    unfolding close_connector close_publisher
    wait_for_graceful_shutdown server publisher ws_connector = do
      closed ← lift (close_web_server env.shutdown server)
      disconnected ← close_connector ws_connector
      close_publisher publisher

    -- `Start`
    unfoldable pub start : Configs → Action (System R A N P) (Unit {0})
    unfolding run_publisher run_server wait_for_graceful_shutdown
    start configs =
        let general = configs.main_config.general in
        let publisher_type = configs.flags.publisher_type in
        do
          external_marshaller ← lift (env.new_marshalizer general.external_marshaller.type_name)
          lock_service ←
              on_redis
                (create_lock_service env.redis general.check_duplicates configs.main_config.redis)
          common_hub ← lift (create_hub publisher_type)
          (handler, publisher) ← on_amqp (
              create_publisher env.amqp env.fuel publisher_type configs.main_config.rabbit_mq
                (some external_marshaller.messages) common_hub)
          ws_handler ← lift (
              create_ws_handler publisher_type (some common_hub) (some external_marshaller.sockets))
          events_interceptor ← lift (create_events_interceptor env.new_bech32 general)
          events_handler ← lift (
              new_events_handler (some lock_service) (some env.broadcasts) (some new_status_metrics)
                (some events_interceptor) general.check_duplicates)
          facade ← lift (
              new_notifier_facade configs.main_config.connector_api (some events_handler) (some 1)
                (some 2))
          web_server ←
              lift (create_web_server_handler env.clock env.fuel env.new_marshalizer facade configs)
          ws_connector ← on_net (
              create_ws_observer_connector env.clock env.fuel env.new_marshalizer env.hosts
                configs.main_config.web_socket_connector facade)
          running ← run_publisher publisher
          serving ← run_server web_server
          wait_for_graceful_shutdown serving running ws_connector
