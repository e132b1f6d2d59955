-- ===== src/Factory/Services.antt =====
-- factory/lockerFactory.go, factory/processFactory.go, factory/webFactory.go and the observer's connector
-- of factory/wsFactory.go.
use mx_chain_notifier_go.Base.{
  ℕ, Bool, not, Option, none, some, GoString, codes, str_eq, if◌then◌else◌,
}
use mx_chain_notifier_go.Errors.{
  Result, ok, err, panicked, ◌>>=◌, GoError, invalid_redis_conn_type,
  invalid_pub_key_converter_type,
}
use mx_chain_notifier_go.Common.{redis_instance_conn_type, redis_sentinel_conn_type}
use mx_chain_notifier_go.Config.{GeneralConfig, RedisConfig, WebSocketConfig, Configs}
use mx_chain_notifier_go.Data.{Ref, ArgsSaveBlockData, InterceptorBlockData}
use mx_chain_notifier_go.Process.Interface.{LockService}
use mx_chain_notifier_go.Process.EventsHandler.{World}
use mx_chain_notifier_go.Process.EventsInterceptor.{PubkeyConverter, new_events_interceptor}
use mx_chain_notifier_go.Process.PayloadHandler.{DataProcessors}
use mx_chain_notifier_go.Redis.{
  RedisClient, RedLockClient, connected_client, new_redlock_wrapper, disabled_redlock_wrapper,
}
use mx_chain_notifier_go.Facade.{NotifierFacade, events_facade, create_payload_handler}
use mx_chain_notifier_go.Api.WebServer.{WebServer, new_web_server_handler}
use mx_chain_notifier_go.Factory.{Marshalizer}

-- The go-redis package: the client for a url, which may not parse, and the failover client for a
-- master's name and a sentinel's address.
pub record RedisPackage (R : Type 0) : Type 0 where
  pub parse_url : GoString → Result Ref
  pub new_client : Ref → RedisClient R
  pub new_failover_client : GoString → GoString → RedisClient R

module _ {R : Type 0} (redis : RedisPackage R) where
  -- `CreateSimpleClient`
  unfoldable pub create_simple_client : RedisConfig → R → Result (RedLockClient R) × R
  unfolding connected_client
  create_simple_client cfg s = elim (redis.parse_url cfg.url) [
    | err e ↦ (err e, s)
    | panicked ↦ (panicked, s)
    | ok opt ↦ connected_client (redis.new_client opt) s
  ]

  -- `CreateFailoverClient`
  unfoldable pub create_failover_client : RedisConfig → R → Result (RedLockClient R) × R
  unfolding connected_client
  create_failover_client cfg s =
      connected_client (redis.new_failover_client cfg.master_name cfg.sentinel_url) s

  -- `createRedisClient`
  unfoldable pub create_redis_client : RedisConfig → R → Result (RedLockClient R) × R
  unfolding create_simple_client create_failover_client
  create_redis_client cfg s =
      if str_eq cfg.connection_type redis_instance_conn_type
      then create_simple_client cfg s
      else if str_eq cfg.connection_type redis_sentinel_conn_type
      then create_failover_client cfg s
      else (err invalid_redis_conn_type, s)

  -- `CreateLockService`
  unfoldable pub create_lock_service : Bool → RedisConfig → R → Result (LockService R) × R
  unfolding create_redis_client new_redlock_wrapper
  create_lock_service check_duplicates config s =
      if not check_duplicates
      then (ok disabled_redlock_wrapper, s)
      else (let (redis_client, s') = create_redis_client config s in
          (redis_client >>= λ c. new_redlock_wrapper (some c) config.ttl, s'))

abbrev pub bech32_pubkey_converter_type : GoString
bech32_pubkey_converter_type = codes "bech32"

-- `getPubKeyConverter`, given `pubkeyConverter.NewBech32PubkeyConverter`.
unfoldable pub get_pub_key_converter :
    (ℕ → GoString → Result PubkeyConverter) → GeneralConfig → Result PubkeyConverter
get_pub_key_converter new_bech32 cfg =
    if str_eq cfg.address_converter.type_name bech32_pubkey_converter_type
    then new_bech32 cfg.address_converter.length cfg.address_converter.prefix
    else err invalid_pub_key_converter_type

-- `CreateEventsInterceptor`
unfoldable pub create_events_interceptor :
    (ℕ → GoString → Result PubkeyConverter)
    → GeneralConfig
    → Result (Option ArgsSaveBlockData → Result InterceptorBlockData)
unfolding get_pub_key_converter new_events_interceptor
create_events_interceptor new_bech32 cfg = do
  pub_key_converter ← get_pub_key_converter new_bech32 cfg
  new_events_interceptor (some pub_key_converter)

-- The websocket host of mx-chain-communication-go, which takes the fields of the configuration and a
-- payload handler, over the state of the network.
pub record WebSocketHosts (H N : Type 0) : Type 0 where
  pub create_web_socket_host : WebSocketConfig → Marshalizer → N → Result Ref × N
  pub set_payload_handler : Ref → H → N → Option GoError × N
  pub close : Ref → N → Option GoError × N

-- process.WSClient: disabled.WSHandler, or a host.
pub data WsClient : Type 0 where
  disabled_client : WsClient
  host_client : Ref → WsClient

-- `Close` of a client: nothing for the disabled one.
unfoldable pub close_ws_client :
    {H N : Type 0} → WebSocketHosts H N → WsClient → N → Option GoError × N
close_ws_client hosts disabled_client n = (none, n)
close_ws_client hosts (host_client host) n = hosts.close host n

module _ {R P : Type 0} (clock : ℕ → ℕ) (fuel : ℕ)
    (new_marshalizer : GoString → Result Marshalizer) where
  -- `CreateWebServerHandler`
  unfoldable pub create_web_server_handler :
      NotifierFacade R P → Configs → Result (WebServer R P (DataProcessors (World R P)))
  unfolding create_payload_handler new_web_server_handler events_facade
  create_web_server_handler facade configs = do
    marshaller ← new_marshalizer (codes "json")
    payload_handler ←
        create_payload_handler (some marshaller.payloads) (some (events_facade clock facade fuel))
    new_web_server_handler (some facade) (some payload_handler) configs

  module _ {N : Type 0} (hosts : WebSocketHosts (DataProcessors (World R P)) N) where
    abbrev with_payload_handler : Ref → Option GoError × N → Result WsClient × N
    with_payload_handler host (none, n) = (ok (host_client host), n)
    with_payload_handler host (some e, n) = (err e, n)

    -- `createWsObsConnector`, from the host on.
    abbrev connect_host : Marshalizer → NotifierFacade R P → Result Ref × N → Result WsClient × N
    connect_host marshaller facade (err e, n) = (err e, n)
    connect_host marshaller facade (panicked, n) = (panicked, n)
    connect_host marshaller facade (ok host, n) =
        elim (create_payload_handler (some marshaller.payloads)
          (some (events_facade clock facade fuel))) [
            | err e ↦ (err e, n)
            | panicked ↦ (panicked, n)
            | ok payload_handler ↦
                with_payload_handler host (hosts.set_payload_handler host payload_handler n)
          ]

    -- `createWsObsConnector` with `createWsHost`.
    unfoldable pub create_ws_obs_connector :
        WebSocketConfig → NotifierFacade R P → N → Result WsClient × N
    unfolding create_payload_handler events_facade
    create_ws_obs_connector config facade n = elim (new_marshalizer config.data_marshaller_type) [
      | err e ↦ (err e, n)
      | panicked ↦ (panicked, n)
      | ok marshaller ↦
          connect_host marshaller facade (hosts.create_web_socket_host config marshaller n)
    ]

    -- `CreateWSObserverConnector`
    unfoldable pub create_ws_observer_connector :
        WebSocketConfig → NotifierFacade R P → N → Result WsClient × N
    unfolding create_ws_obs_connector
    create_ws_observer_connector config facade n =
        if config.enabled then create_ws_obs_connector config facade n else (ok disabled_client, n)
