-- ===== src/Rabbit/Publisher.antt =====
-- rabbitmq/publisher.go: the checks of the constructor, the exchanges, and the six publications.
--
-- A call that has not returned, as its client still tries, is `none`.
pub mod Exchanges
use mx_chain_notifier_go.Base.{
  ℕ, Bool, true, false, Option, none, some, GoString, Bytes, [], str_eq,
}
use mx_chain_notifier_go.Errors.{
  Result, ok, err, panicked, ◌>>=◌, ◌>>◌, require, refuse_if, GoError, nil_rabbit_mq_client,
  nil_marshaller, invalid_rabbit_mq_exchange_name, invalid_rabbit_mq_exchange_type,
}
use mx_chain_notifier_go.Data.{
  BlockEvents, RevertBlock, FinalizedBlock, BlockTxs, BlockScrs, BlockEventsWithOrder, Message,
}
use mx_chain_notifier_go.Rabbit.Client.{
  Amqp, Publishing, RabbitMqClient, exchange_declare, publish_confirmed, close,
}

-- config.RabbitMQExchangeConfig
pub record RabbitMqExchangeConfig : Type 0 where
  pub name : GoString
  pub type : GoString

-- config.RabbitMQConfig
pub record RabbitMqConfig : Type 0 where
  pub url : GoString
  pub events_exchange : RabbitMqExchangeConfig
  pub revert_events_exchange : RabbitMqExchangeConfig
  pub finalized_events_exchange : RabbitMqExchangeConfig
  pub block_txs_exchange : RabbitMqExchangeConfig
  pub block_scrs_exchange : RabbitMqExchangeConfig
  pub block_events_exchange : RabbitMqExchangeConfig

-- rabbitmq.RabbitMqClient, over the state of the client.
pub record RabbitMqClientHandler (W : Type 0) : Type 0 where
  pub publish : Publishing → W → Option (Option GoError × W)
  pub exchange_declare : GoString → GoString → W → Option GoError × W
  pub close : W → W

-- rabbitMqClient as one.
unfoldable pub rabbit_mq_client :
    {S : Type 0} → Amqp S → ℕ → RabbitMqClientHandler (RabbitMqClient S)
rabbit_mq_client a fuel = record {
  publish = publish_confirmed a fuel;
  exchange_declare = exchange_declare a;
  close = close a;
}

-- The marshaller at the six types of messages, which it is given without a tag.
abbrev pub MessageMarshaller : Type 0
MessageMarshaller = Message → Bytes × Option GoError

pub record RabbitMqPublisher (W : Type 0) : Type 0 where
  pub client : RabbitMqClientHandler W
  pub marshaller : MessageMarshaller
  pub cfg : RabbitMqConfig

-- `checkArgs`, which gives the client and the marshaller that it found.
unfoldable pub check_args :
    {W : Type 0}
    → Option (RabbitMqClientHandler W)
    → RabbitMqConfig
    → Option MessageMarshaller
    → Result (RabbitMqClientHandler W × MessageMarshaller)
check_args client cfg marshaller = do
  c ← require client nil_rabbit_mq_client
  m ← require marshaller nil_marshaller
  refuse_if (str_eq cfg.events_exchange.name []) invalid_rabbit_mq_exchange_name
  refuse_if (str_eq cfg.events_exchange.type []) invalid_rabbit_mq_exchange_type
  refuse_if (str_eq cfg.revert_events_exchange.name []) invalid_rabbit_mq_exchange_name
  refuse_if (str_eq cfg.revert_events_exchange.type []) invalid_rabbit_mq_exchange_type
  refuse_if (str_eq cfg.finalized_events_exchange.name []) invalid_rabbit_mq_exchange_name
  refuse_if (str_eq cfg.finalized_events_exchange.type []) invalid_rabbit_mq_exchange_type
  refuse_if (str_eq cfg.block_txs_exchange.name []) invalid_rabbit_mq_exchange_name
  refuse_if (str_eq cfg.block_txs_exchange.type []) invalid_rabbit_mq_exchange_type
  refuse_if (str_eq cfg.block_scrs_exchange.name []) invalid_rabbit_mq_exchange_name
  refuse_if (str_eq cfg.block_scrs_exchange.type []) invalid_rabbit_mq_exchange_type
  refuse_if (str_eq cfg.block_events_exchange.name []) invalid_rabbit_mq_exchange_name
  refuse_if (str_eq cfg.block_events_exchange.type []) invalid_rabbit_mq_exchange_type
  ok (c, m)

module _ {W : Type 0} where
  -- `createExchange`
  unfoldable pub create_exchange :
      RabbitMqClientHandler W → RabbitMqExchangeConfig → W → Option GoError × W
  create_exchange client conf w = client.exchange_declare conf.name conf.type w

  -- `if err != nil { return err }` between two calls on the client.
  abbrev pub then_declare : Option GoError × W → (W → Option GoError × W) → Option GoError × W
  then_declare (none, w) next = next w
  then_declare (some e, w) next = (some e, w)

  -- `createExchanges`
  unfoldable pub create_exchanges :
      RabbitMqClientHandler W → RabbitMqConfig → W → Option GoError × W
  unfolding create_exchange
  create_exchanges client cfg w = then_declare (create_exchange client cfg.events_exchange w) (λ w1.
      then_declare (create_exchange client cfg.revert_events_exchange w1) (λ w2.
        then_declare (create_exchange client cfg.finalized_events_exchange w2) (λ w3.
          then_declare (create_exchange client cfg.block_txs_exchange w3) (λ w4.
            then_declare (create_exchange client cfg.block_scrs_exchange w4)
              (λ w5. create_exchange client cfg.block_events_exchange w5)))))

  abbrev pub created : Option GoError → RabbitMqPublisher W → Result (RabbitMqPublisher W)
  created none rp = ok rp
  created (some e) rp = err e

  -- `NewRabbitMqPublisher`
  unfoldable pub new_rabbit_mq_publisher :
      Option (RabbitMqClientHandler W)
      → RabbitMqConfig
      → Option MessageMarshaller
      → W
      → Result (RabbitMqPublisher W) × W
  unfolding check_args create_exchanges
  new_rabbit_mq_publisher client cfg marshaller w = elim (check_args client cfg marshaller) [
    | err e ↦ (err e, w)
    | panicked ↦ (panicked, w)
    | ok (c, m) ↦
        let (e, w') = create_exchanges c cfg w in
        (created e (record { client = c; marshaller = m; cfg = cfg }), w')
  ]

module _ {W : Type 0} (rp : RabbitMqPublisher W) where
  unfoldable pub publish_fanout : GoString → Bytes → W → Option (Option GoError × W)
  publish_fanout exchange_name payload w =
      rp.client.publish
        (record {
          exchange = exchange_name;
          key = [];
          mandatory = true;
          immediate = false;
          body = payload;
        })
        w

  -- The body that the six publications share: an error of either call is logged, and no more.
  unfoldable pub publish_on : RabbitMqExchangeConfig → Message → W → Option W
  unfolding publish_fanout
  publish_on exchange msg w =
      let (bytes, e) = rp.marshaller msg in
      elim e [
        | some error ↦ some w
        | none ↦ elim (publish_fanout exchange.name bytes w) [
          | none ↦ none
          | some (error, w') ↦ some w'
        ]
      ]

  unfoldable pub rabbit_publish : BlockEvents → W → Option W
  rabbit_publish events w = publish_on rp.cfg.events_exchange (Message.push events) w

  unfoldable pub rabbit_publish_revert : RevertBlock → W → Option W
  rabbit_publish_revert block w = publish_on rp.cfg.revert_events_exchange (Message.revert block) w

  unfoldable pub rabbit_publish_finalized : FinalizedBlock → W → Option W
  rabbit_publish_finalized block w =
      publish_on rp.cfg.finalized_events_exchange (Message.finalized block) w

  unfoldable pub rabbit_publish_txs : BlockTxs → W → Option W
  rabbit_publish_txs txs w = publish_on rp.cfg.block_txs_exchange (Message.txs txs) w

  unfoldable pub rabbit_publish_scrs : BlockScrs → W → Option W
  rabbit_publish_scrs scrs w = publish_on rp.cfg.block_scrs_exchange (Message.scrs scrs) w

  unfoldable pub rabbit_publish_with_order : BlockEventsWithOrder → W → Option W
  rabbit_publish_with_order events w =
      publish_on rp.cfg.block_events_exchange (Message.events_with_order events) w

  -- The PublisherHandler interface: each message goes to its method.
  unfoldable pub rabbit_publish_message : Message → W → Option W
  unfolding rabbit_publish rabbit_publish_revert rabbit_publish_finalized rabbit_publish_txs
      rabbit_publish_scrs rabbit_publish_with_order
  rabbit_publish_message (Message.push b) = rabbit_publish b
  rabbit_publish_message (Message.revert b) = rabbit_publish_revert b
  rabbit_publish_message (Message.finalized b) = rabbit_publish_finalized b
  rabbit_publish_message (Message.txs b) = rabbit_publish_txs b
  rabbit_publish_message (Message.scrs b) = rabbit_publish_scrs b
  rabbit_publish_message (Message.events_with_order b) = rabbit_publish_with_order b

  unfoldable pub close_publisher : W → Result (Unit {0}) × W
  close_publisher w = (ok tt, rp.client.close w)
