-- ===== src/Factory.antt =====
-- factory: how the configuration chooses each component, and the disabled components that it may choose.
pub mod Services
pub mod Agreement
use mx_chain_notifier_go.Base.{
  ℕ, List, [], ◌∷◌, Bool, true, false, not, ◌||◌, Option, none, some, GoString, codes, str_eq, ◌==◌,
  leb, if◌then◌else◌,
}
use mx_chain_notifier_go.Errors.{
  Result, ok, err, panicked, ◌>>=◌, ◌>>◌, refuse_if, GoError, invalid_api_type,
  invalid_redis_conn_type, invalid_pub_key_converter_type, invalid_buffer_size,
  redis_connection_failed,
}
use mx_chain_notifier_go.Common.{
  ws_publisher_type, message_queue_publisher_type, redis_instance_conn_type,
  redis_sentinel_conn_type,
}
use mx_chain_notifier_go.Config.{GeneralConfig, RedisConfig, WebSocketConfig, Configs}
use mx_chain_notifier_go.Data.{Ref, Message, ArgsSaveBlockData, InterceptorBlockData}
use mx_chain_notifier_go.Dispatcher.{new_subscription_mapper}
use mx_chain_notifier_go.Filters.{match_event}
use mx_chain_notifier_go.Hub.{Call, CommonHub, new_common_hub}
use mx_chain_notifier_go.Hub.Lifecycle.{Change, apply_change, publish_message}
use mx_chain_notifier_go.Process.Interface.{LockService}
use mx_chain_notifier_go.Process.EventsHandler.{World}
use mx_chain_notifier_go.Process.EventsInterceptor.{PubkeyConverter, new_events_interceptor}
use mx_chain_notifier_go.Process.Preprocess.{Marshaller}
use mx_chain_notifier_go.Process.PayloadHandler.{DataProcessors}
use mx_chain_notifier_go.Process.Publisher.{PublisherState, new_publisher}
use mx_chain_notifier_go.Redis.{
  RedisClient, RedLockClient, connected_client, new_redlock_wrapper, disabled_redlock_wrapper,
}
use mx_chain_notifier_go.Rabbit.Client.{Amqp, RabbitMqClient, new_rabbit_mq_client}
use mx_chain_notifier_go.Rabbit.Publisher.{
  RabbitMqConfig, MessageMarshaller, RabbitMqPublisher, rabbit_mq_client, new_rabbit_mq_publisher,
}
use mx_chain_notifier_go.Facade.{NotifierFacade, events_facade, create_payload_handler}
use mx_chain_notifier_go.Api.WebServer.{WebServer, new_web_server_handler}
use mx_chain_notifier_go.WebSocket.{SocketMarshaller, WebsocketProcessor, new_websocket_processor}

-- marshal.Marshalizer at the types that the components call it at.
pub record Marshalizer : Type 0 where
  pub payloads : Marshaller
  pub messages : MessageMarshaller
  pub sockets : SocketMarshaller

-- dispatcher.Hub: disabled.Hub, or the common hub.
pub data AnyHub : Type 0 where
  disabled_hub : AnyHub
  common_hub : CommonHub → AnyHub

-- The publications of a hub, and what changes it: a disabled hub does nothing.
unfoldable pub hub_publish : AnyHub → Message → List Call
unfolding publish_message
hub_publish disabled_hub m = []
hub_publish (common_hub h) m = publish_message m h

unfoldable pub hub_change : Change → AnyHub → AnyHub
unfolding apply_change
hub_change c disabled_hub = disabled_hub
hub_change c (common_hub h) = common_hub (apply_change c h)

abbrev created_hub : Result CommonHub → Result AnyHub
created_hub (ok h) = ok (common_hub h)
created_hub (err e) = err e
created_hub panicked = panicked

-- `CreateHub` with `createHub`.
unfoldable pub create_hub : GoString → Result AnyHub
unfolding new_common_hub
create_hub api_type =
    if str_eq api_type message_queue_publisher_type
    then ok disabled_hub
    else if str_eq api_type ws_publisher_type
    then created_hub (new_common_hub (some match_event) (some new_subscription_mapper))
    else err invalid_api_type

-- An int that is not positive, by its 64-bit pattern.
abbrev is_not_positive : ℕ → Bool
is_not_positive n = n == 0 || leb 9223372036854775808 n

-- `NewWSUpgraderWrapper`, which gives the two sizes.
unfoldable pub new_ws_upgrader_wrapper : ℕ → ℕ → Result (ℕ × ℕ)
new_ws_upgrader_wrapper read_buff_size write_buff_size = do
  refuse_if (is_not_positive read_buff_size) (invalid_buffer_size read_buff_size)
  refuse_if (is_not_positive write_buff_size) (invalid_buffer_size write_buff_size)
  ok (read_buff_size, write_buff_size)

abbrev read_buffer_size : ℕ
read_buffer_size = 1024

abbrev write_buffer_size : ℕ
write_buffer_size = 1024

-- dispatcher.WSHandler: disabled.WSHandler, or the websocket processor.
pub data WsHandler : Type 0 where
  disabled_ws_handler : WsHandler
  websocket_handler : WebsocketProcessor → WsHandler

-- `createWSHandler`
unfoldable pub create_websocket_handler : Option AnyHub → Option SocketMarshaller → Result WsHandler
unfolding new_ws_upgrader_wrapper new_websocket_processor
create_websocket_handler ws_dispatcher marshaller = do
  upgrader ← new_ws_upgrader_wrapper read_buffer_size write_buffer_size
  wh ← new_websocket_processor ws_dispatcher (some upgrader) marshaller
  ok (websocket_handler wh)

-- `CreateWSHandler`
unfoldable pub create_ws_handler :
    GoString → Option AnyHub → Option SocketMarshaller → Result WsHandler
unfolding create_websocket_handler
create_ws_handler api_type ws_dispatcher marshaller =
    if str_eq api_type message_queue_publisher_type
    then ok disabled_ws_handler
    else if str_eq api_type ws_publisher_type
    then create_websocket_handler ws_dispatcher marshaller
    else err invalid_api_type

-- process.PublisherHandler
pub data PublisherHandler (S : Type 0) : Type 0 where
  rabbit_publisher : RabbitMqPublisher (RabbitMqClient S) → RabbitMqClient S → PublisherHandler S
  hub_publisher : AnyHub → PublisherHandler S

-- `process.NewPublisher`, which gives the handler and the state of the loop.
abbrev pub publisher_on :
    {S : Type 0}
    → Option (PublisherHandler S)
    → Result (Option (PublisherHandler S) × PublisherState)
publisher_on handler = new_publisher handler >>= λ p. ok (handler, p)

module _ {S : Type 0} (a : Amqp S) (fuel : ℕ) where
  -- `createRabbitMqPublisher`; what has been opened before an error stays open.
  unfoldable pub create_rabbit_mq_publisher :
      RabbitMqConfig
      → Option MessageMarshaller
      → S
      → Result (Option (PublisherHandler S) × PublisherState) × S
  unfolding new_rabbit_mq_client new_rabbit_mq_publisher new_publisher rabbit_mq_client
  create_rabbit_mq_publisher config marshaller s =
      let (client, s') = new_rabbit_mq_client a config.url s in
      elim client [
        | err e ↦ (err e, s')
        | panicked ↦ (panicked, s')
        | ok rc ↦
            let (result, rc') =
              new_rabbit_mq_publisher (some (rabbit_mq_client a fuel)) config marshaller rc in
            (result >>= λ rp. publisher_on (some (rabbit_publisher rp rc')), rc'.amqp)
      ]

  -- `CreatePublisher`
  unfoldable pub create_publisher :
      GoString
      → RabbitMqConfig
      → Option MessageMarshaller
      → AnyHub
      → S
      → Result (Option (PublisherHandler S) × PublisherState) × S
  unfolding create_rabbit_mq_publisher new_publisher
  create_publisher api_type config marshaller hub s =
      if str_eq api_type message_queue_publisher_type
      then create_rabbit_mq_publisher config marshaller s
      else (
        if str_eq api_type ws_publisher_type
            then publisher_on (some (hub_publisher hub))
            else err invalid_api_type,
        s,
      )
