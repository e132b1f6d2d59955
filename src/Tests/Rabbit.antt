-- ===== src/Tests/Rabbit.antt =====
-- The RabbitMQ client and publisher on a network that fails first.
use mx_chain_notifier_go.Base.{
  ℕ, zero, suc, ◌+◌, ◌*◌, ◌≡◌, refl, List, [], ◌∷◌, Option, none, some, GoString, codes, arith,
  str_eq,
}
use mx_chain_notifier_go.Errors.{ok, GoError, external}
use mx_chain_notifier_go.Rabbit.Client.{
  Publishing, Signal, acked, nacked, conn_failed, Amqp, RabbitMqClient, open_channel, connect,
  publish_confirmed, recover, reconnect, reopen_channel, until_done, exchange_declare,
}
use mx_chain_notifier_go.Rabbit.Client.Delivery.{
  done, again, after_nack, after_reconnect, confirmed, retried, Delivered,
  publish_confirmed-Delivered, publish_confirmed_sound,
}
use mx_chain_notifier_go.Rabbit.Publisher.{
  RabbitMqExchangeConfig, RabbitMqConfig, rabbit_mq_client, MessageMarshaller,
  new_rabbit_mq_publisher,
}
use mx_chain_notifier_go.Rabbit.Publisher.Exchanges.{
  declare_all, exchanges, fanout, real_publisher, new_rabbit_mq_publisher_lem,
}

pub record Network : Type 0 where
  pub signals : List Signal
  pub outages : ℕ
  pub published : List Publishing
  pub declared : List GoString

abbrev dial_at : ℕ → Network → (ℕ × Option GoError) × Network
dial_at zero s = ((7, none), s)
dial_at (suc n) s = ((0, some (external 4)), record s { outages = n })

abbrev receive_at : List Signal → Network → Signal × Network
receive_at [] s = (acked 0, s)
receive_at (x ∷ xs) s = (x, record s { signals = xs })

abbrev pub amqp : Amqp Network
amqp = record {
  dial = λ url s. dial_at s.outages s;
  channel = λ conn s. ((8, none), s);
  confirm = λ ch no_wait s. (none, s);
  exchange_declare = λ ch name kind durable auto internal no_wait s.
      (none, record s { declared = name ∷ s.declared });
  publish = λ ch msg s. (none, record s { published = msg ∷ s.published });
  receive = λ conn ch s. receive_at s.signals s;
  close_channel = λ ch s. (none, s);
  close_connection = λ conn s. (none, s);
}

-- A nack, a lost connection that needs two attempts, and an acknowledgement.
abbrev pub network : Network
network = record {
  signals = nacked 1 ∷ conn_failed (some (external 5)) ∷ acked 2 ∷ [];
  outages = 1;
  published = [];
  declared = [];
}

abbrev client : RabbitMqClient Network
client = record { url = codes "amqp"; conn = 1; ch = 2; amqp = network; slept = 0 }

abbrev message : Publishing
message = fanout (codes "revert_events") (1 ∷ [])

abbrev client_after : RabbitMqClient Network
client_after = record {
  url = codes "amqp";
  conn = 7;
  ch = 8;
  amqp = record {
    signals = [];
    outages = 0;
    published = message ∷ message ∷ message ∷ [];
    declared = [];
  };
  slept = 1000;
}

delivered : Delivered amqp message client 3 2 none client_after
unfolding connect open_channel
delivered =
    retried none (record network { published = message ∷ [] })
      (record network {
        signals = conn_failed (some (external 5)) ∷ acked 2 ∷ [];
        published = message ∷ [];
      })
      refl refl (after_nack 1)
      (retried none
        (record network {
          signals = conn_failed (some (external 5)) ∷ acked 2 ∷ [];
          published = message ∷ message ∷ [];
        })
        (record network { signals = acked 2 ∷ []; published = message ∷ message ∷ [] }) refl refl
        (after_reconnect (external 5) (again (external 4) refl (done refl)))
        (confirmed none 2
          (record {
            signals = acked 2 ∷ [];
            outages = 0;
            published = message ∷ message ∷ message ∷ [];
            declared = [];
          })
          client_after.amqp refl refl))

publish_confirmed-Delivered_example :
    (publish_confirmed amqp 4 message client ≡ some (none, client_after))
    × (client_after.slept ≡ client.slept + 500 * 2)
publish_confirmed-Delivered_example =
    publish_confirmed-Delivered amqp 4 message client delivered (omega arith)

ends : publish_confirmed amqp 4 message client ≡ some (none, client_after)
unfolding publish_confirmed recover reconnect reopen_channel until_done connect open_channel
ends = refl

publish_confirmed_sound_example :
    (n : ℕ) × (tries : ℕ) × Delivered amqp message client n tries none client_after
publish_confirmed_sound_example =
    publish_confirmed_sound amqp 4 message client client_after none ends

abbrev exchange : GoString → RabbitMqExchangeConfig
exchange name = record { name = name; type = codes "fanout" }

abbrev config : RabbitMqConfig
config = record {
  url = codes "amqp";
  events_exchange = exchange (codes "all_events");
  revert_events_exchange = exchange (codes "revert_events");
  finalized_events_exchange = exchange (codes "finalized_events");
  block_txs_exchange = exchange (codes "block_txs");
  block_scrs_exchange = exchange (codes "block_scrs");
  block_events_exchange = exchange (codes "block_events");
}

abbrev pub message_marshaller : MessageMarshaller
message_marshaller m = (1 ∷ [], none)

abbrev declared_client : RabbitMqClient Network
declared_client = (declare_all (rabbit_mq_client amqp 4) (exchanges config) client).1

new_rabbit_mq_publisher_lem_example :
    new_rabbit_mq_publisher (some (rabbit_mq_client amqp 4)) config (some message_marshaller) client
    ≡ (ok (real_publisher amqp 4 message_marshaller config), declared_client)
unfolding str_eq rabbit_mq_client exchange_declare
new_rabbit_mq_publisher_lem_example =
    new_rabbit_mq_publisher_lem (rabbit_mq_client amqp 4) config message_marshaller client
