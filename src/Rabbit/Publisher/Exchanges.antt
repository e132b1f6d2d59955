-- ===== src/Rabbit/Publisher/Exchanges.antt =====
-- rabbitmq/publisher.go on the client of rabbitmq/rabbitClient.go: what a publisher declares, and on
-- which exchange each message is delivered.
use mx_chain_notifier_go.Base.{
  ℕ, ◌≡◌, true, false, Option, none, some, GoString, Bytes, List, [], ◌∷◌, arith, str_eq,
}
use mx_chain_notifier_go.Errors.{
  Result, ok, err, panicked, ◌>>◌, refuse_if, GoError, invalid_rabbit_mq_exchange_name,
  invalid_rabbit_mq_exchange_type,
}
use mx_chain_notifier_go.Data.{Message}
use mx_chain_notifier_go.Rabbit.Client.{Amqp, Publishing, RabbitMqClient}
use mx_chain_notifier_go.Rabbit.Publisher.{
  RabbitMqExchangeConfig, RabbitMqConfig, RabbitMqClientHandler, rabbit_mq_client,
  MessageMarshaller, RabbitMqPublisher, check_args, create_exchange, create_exchanges, then_declare,
  new_rabbit_mq_publisher, created,
}

-- The exchanges of a configuration, in the order of their declaration.
abbrev pub exchanges : RabbitMqConfig → List RabbitMqExchangeConfig
exchanges cfg =
    cfg.events_exchange ∷ cfg.revert_events_exchange ∷ cfg.finalized_events_exchange
    ∷ cfg.block_txs_exchange ∷ cfg.block_scrs_exchange ∷ cfg.block_events_exchange ∷ []

-- The first thing that is wrong with a list of exchanges.
abbrev pub check_all : List RabbitMqExchangeConfig → Result (Unit {0})
check_all [] = ok tt
check_all (x ∷ xs) =
    refuse_if (str_eq x.name []) invalid_rabbit_mq_exchange_name
    >> (refuse_if (str_eq x.type []) invalid_rabbit_mq_exchange_type >> check_all xs)

-- Declares one exchange after the other, up to the first error.
abbrev pub declare_all :
    {W : Type 0} → RabbitMqClientHandler W → List RabbitMqExchangeConfig → W → Option GoError × W
declare_all client [] w = (none, w)
declare_all client (x ∷ xs) w =
    then_declare (client.exchange_declare x.name x.type w) (declare_all client xs)

-- With a client and a marshaller, the constructor gives the first error of an exchange without a
-- name or a type, and declares nothing then; otherwise it declares the six exchanges in their order
-- up to the first error of the client, and gives that error, or the publisher if there was none.
pub new_rabbit_mq_publisher_lem :
    {W : Type 0} (client : RabbitMqClientHandler W) (cfg : RabbitMqConfig) (m : MessageMarshaller)
    (w : W)
    → new_rabbit_mq_publisher (some client) cfg (some m) w ≡ elim (check_all (exchanges cfg)) [
      | err e ↦ (err e, w)
      | panicked ↦ (panicked, w)
      | ok u ↦
          let (e, w') = declare_all client (exchanges cfg) w in
          (created e (record { client = client; marshaller = m; cfg = cfg }), w')
    ]
unfolding new_rabbit_mq_publisher check_args create_exchanges create_exchange
new_rabbit_mq_publisher_lem client cfg m w = ground arith

-- The exchange that a message is for.
abbrev pub exchange_of : RabbitMqConfig → Message → RabbitMqExchangeConfig
exchange_of cfg (Message.push b) = cfg.events_exchange
exchange_of cfg (Message.revert b) = cfg.revert_events_exchange
exchange_of cfg (Message.finalized b) = cfg.finalized_events_exchange
exchange_of cfg (Message.txs b) = cfg.block_txs_exchange
exchange_of cfg (Message.scrs b) = cfg.block_scrs_exchange
exchange_of cfg (Message.events_with_order b) = cfg.block_events_exchange

abbrev pub fanout : GoString → Bytes → Publishing
fanout exchange body = record {
  exchange = exchange;
  key = [];
  mandatory = true;
  immediate = false;
  body = body;
}

module _ {S : Type 0} (a : Amqp S) (fuel : ℕ) (m : MessageMarshaller) (cfg : RabbitMqConfig) where
  abbrev pub real_publisher : RabbitMqPublisher (RabbitMqClient S)
  real_publisher = record { client = rabbit_mq_client a fuel; marshaller = m; cfg = cfg }
