-- ===== src/Factory/Agreement.antt =====
-- factory: the components that are chosen by the publisher's type fit each other.
use mx_chain_notifier_go.Base.{
  ℕ, ◌≡◌, refl, [], inl, inr, false, Option, some, GoString, str_eq, Bool-cases,
}
use mx_chain_notifier_go.Errors.{Result, ok, err, panicked, ◌>>=◌}
use mx_chain_notifier_go.Common.{message_queue_publisher_type, ws_publisher_type}
use mx_chain_notifier_go.Dispatcher.{new_subscription_mapper}
use mx_chain_notifier_go.Filters.{match_event}
use mx_chain_notifier_go.Hub.{CommonHub}
use mx_chain_notifier_go.Process.Publisher.{PublisherState, Loop, new_publisher}
use mx_chain_notifier_go.Rabbit.Client.{Amqp, RabbitMqClient, new_rabbit_mq_client}
use mx_chain_notifier_go.Rabbit.Publisher.{
  RabbitMqConfig, MessageMarshaller, RabbitMqPublisher, rabbit_mq_client, new_rabbit_mq_publisher,
}
use mx_chain_notifier_go.Factory.{
  AnyHub, PublisherHandler, rabbit_publisher, publisher_on, create_publisher,
  create_rabbit_mq_publisher,
}

-- The publisher before its Run.
abbrev pub fresh_publisher : PublisherState
fresh_publisher = record {
  cancel_func = false;
  canceled = false;
  close_chan = false;
  loop = Loop.not_started;
  waiting = [];
  called = [];
  handled = [];
  handler_closed = 0;
}

module _ {S : Type 0} (a : Amqp S) (fuel : ℕ) where
  -- A publisher that was made is a fresh one.
  abbrev pub IsMade : Result (Option (PublisherHandler S) × PublisherState) → Type 0
  IsMade (ok (handler, p)) = p ≡ fresh_publisher
  IsMade (err e) = Unit
  IsMade panicked = Unit

  published-IsMade :
      (result : Result (RabbitMqPublisher (RabbitMqClient S))) (rc : RabbitMqClient S)
      → IsMade (result >>= λ rp. publisher_on (some (rabbit_publisher rp rc)))
  unfolding new_publisher
  published-IsMade (ok rp) rc = refl
  published-IsMade (err e) rc = tt
  published-IsMade panicked rc = tt

  create_rabbit_mq_publisher-IsMade :
      (config : RabbitMqConfig) (m : Option MessageMarshaller) (s : S)
      → IsMade (create_rabbit_mq_publisher a fuel config m s).0
  unfolding create_rabbit_mq_publisher
  create_rabbit_mq_publisher-IsMade config m s = by_client (new_rabbit_mq_client a config.url s)
    where
      by_client :
          (x : Result (RabbitMqClient S) × S)
          → IsMade
              (elim x.0 as (λ y. Result (Option (PublisherHandler S) × PublisherState) × S) [
                | err e ↦ (err e, x.1)
                | panicked ↦ (panicked, x.1)
                | ok rc ↦
                    let (result, rc') =
                      new_rabbit_mq_publisher (some (rabbit_mq_client a fuel)) config m rc in
                    (result >>= λ rp. publisher_on (some (rabbit_publisher rp rc')), rc'.amqp)
              ]).0
      by_client (err e, s') = tt
      by_client (panicked, s') = tt
      by_client (ok rc, s') =
          published-IsMade (new_rabbit_mq_publisher (some (rabbit_mq_client a fuel)) config m rc).0
            (new_rabbit_mq_publisher (some (rabbit_mq_client a fuel)) config m rc).1

  pub create_publisher-IsMade :
      (t : GoString) (config : RabbitMqConfig) (m : Option MessageMarshaller) (hub : AnyHub) (s : S)
      → IsMade (create_publisher a fuel t config m hub s).0
  unfolding create_publisher new_publisher
  create_publisher-IsMade t config m hub s =
      elim (Bool-cases (str_eq t message_queue_publisher_type)) [
        | inl rabbit ↦ rw rabbit (create_rabbit_mq_publisher-IsMade config m s)
        | inr other ↦ rw other (elim (Bool-cases (str_eq t ws_publisher_type)) [
          | inl ws ↦ rw ws refl
          | inr unknown ↦ rw unknown tt
        ])
      ]

-- The hub that the factory makes.
abbrev pub new_hub : CommonHub
new_hub = record {
  filter = match_event;
  subscription_mapper = new_subscription_mapper;
  dispatchers = [];
}
