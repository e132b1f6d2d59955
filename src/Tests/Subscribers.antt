-- ===== src/Tests/Subscribers.antt =====
-- The hub and its subscriptions, with two dispatchers.
use mx_chain_notifier_go.Base.{
  ◌≡◌, refl, [], ◌∷◌, true, some, GoString, codes, lookup, str_eq, keep, ◌↔◌, nat_eq, string_eq,
  insert,
}
use mx_chain_notifier_go.Common.{
  push_logs_and_events, revert_block_events, block_txs, block_events, block_scrs,
  finalized_block_events,
}
use mx_chain_notifier_go.Errors.{ok}
use mx_chain_notifier_go.Data.{
  Event, BlockEvents, RevertBlock, SubscriptionEntry, SubscribeEvent, Message,
}
use mx_chain_notifier_go.Dispatcher.{
  new_subscription_mapper, append_subscription, match_subscribe_event, match_level_from_input,
  get_event_type, default_subscription, subscription_of, subscribe_entries, match_entries,
  subscriptions, group, group_all,
}
use mx_chain_notifier_go.Dispatcher.Mapper.{subs_of, has_type}
use mx_chain_notifier_go.Filters.{match_event}
use mx_chain_notifier_go.Filters.Levels.{Wanted, match_event-subscription_of}
use mx_chain_notifier_go.Hub.{
  EventDispatcher, revert_event, finalized_event, txs_event, events_with_order, scrs_event,
  CommonHub, new_common_hub, subscribe, register_dispatcher, publish, publish_revert,
  publish_finalized, publish_txs, publish_scrs, publish_block_events_with_order, publish_once,
  fill_dispatchers_map, send_each,
}
use mx_chain_notifier_go.Hub.Subscribers.{
  IsValid, calls_to, once_if_subscribed, publish_once_each, pushes_to, publish_lem,
}
use mx_chain_notifier_go.Hub.Isolation.{run-own}
use mx_chain_notifier_go.Hub.Lifecycle.{
  subscribes, registers, apply_change, run, run-IsValid, publish_message, unregisters,
}

abbrev alice : EventDispatcher
alice = record { id = 1; object = 10 }

abbrev bob : EventDispatcher
bob = record { id = 2; object = 20 }

abbrev on_transfer : SubscriptionEntry
on_transfer = record { event_type = []; address = []; identifier = codes "transfer"; topics = [] }

abbrev on_revert : SubscriptionEntry
on_revert = record { event_type = revert_block_events; address = []; identifier = []; topics = [] }

abbrev of_address : SubscriptionEntry
of_address = record {
  event_type = [];
  address = codes "erd1a";
  identifier = codes "transfer";
  topics = [];
}

abbrev event_at : GoString → GoString → Event
event_at address identifier = record {
  address = address;
  identifier = identifier;
  topics = [];
  data_bytes = [];
  tx_hash = codes "tx1";
}

abbrev block : BlockEvents
block = record {
  hash = codes "ab07";
  shard_id = 1;
  time_stamp = 1000;
  events =
      event_at (codes "erd1a") (codes "transfer") ∷ event_at (codes "erd1b") (codes "burn") ∷ [];
}

abbrev reverted : RevertBlock
reverted = record { hash = codes "ab07"; nonce = 7; round = 8; epoch = 2 }

abbrev asked : SubscribeEvent
asked = record {
  dispatcher_id = 1;
  subscription_entries = on_transfer ∷ on_revert ∷ on_revert ∷ of_address ∷ [];
}

abbrev asked_all : SubscribeEvent
asked_all = record { dispatcher_id = 2; subscription_entries = [] }

abbrev new_hub : CommonHub
new_hub = record {
  filter = match_event;
  subscription_mapper = new_subscription_mapper;
  dispatchers = [];
}

-- Both dispatchers are registered and have subscribed, one of them before it registered.
abbrev hub : CommonHub
hub = run (subscribes asked ∷ registers alice ∷ registers bob ∷ subscribes asked_all ∷ []) new_hub

made : new_common_hub (some match_event) (some new_subscription_mapper) ≡ ok new_hub
unfolding new_common_hub
made = refl

-- The hub that later tests start from.
hub-IsValid : IsValid hub
hub-IsValid =
    run-IsValid match_event
      (subscribes asked ∷ registers alice ∷ registers bob ∷ subscribes asked_all ∷ []) {h = new_hub}
      made

-- Two subscriptions to reverts, and one call.
publish_once_each_example :
    (calls_to 1 (publish_revert reverted hub)
      ≡ once_if_subscribed 1 revert_block_events (revert_event reverted) hub)
    × (calls_to 1 (publish_finalized (record { hash = codes "ab07" }) hub)
        ≡ once_if_subscribed 1 finalized_block_events
            (finalized_event (record { hash = codes "ab07" }))
            hub)
    × (calls_to 1 (publish_txs (record { hash = codes "ab07"; txs = [] }) hub)
        ≡ once_if_subscribed 1 block_txs (txs_event (record { hash = codes "ab07"; txs = [] })) hub)
    × (calls_to 1 (publish_scrs (record { hash = codes "ab07"; scrs = [] }) hub)
        ≡ once_if_subscribed 1 block_scrs
            (scrs_event (record { hash = codes "ab07"; scrs = [] }))
            hub)
    × (calls_to 1 (
          publish_block_events_with_order
            (record {
              hash = codes "ab07";
              shard_id = 1;
              time_stamp = 1000;
              txs = [];
              scrs = [];
              events = [];
            })
            hub)
        ≡ once_if_subscribed 1 block_events
            (events_with_order (record {
              hash = codes "ab07";
              shard_id = 1;
              time_stamp = 1000;
              txs = [];
              scrs = [];
              events = [];
            }))
            hub)
publish_once_each_example =
    publish_once_each hub 1 reverted (record { hash = codes "ab07" })
      (record { hash = codes "ab07"; txs = [] }) (record { hash = codes "ab07"; scrs = [] })
      (record {
        hash = codes "ab07";
        shard_id = 1;
        time_stamp = 1000;
        txs = [];
        scrs = [];
        events = [];
      })
      hub-IsValid

publish_lem_example :
    calls_to 1 (publish block hub)
    ≡ pushes_to hub.filter block
        (lookup 1 hub.dispatchers)
        (keep (has_type push_logs_and_events) (subs_of 1 hub.subscription_mapper))
publish_lem_example = publish_lem hub 1 block hub-IsValid

-- What the other one does does not count.
run-own_example :
    calls_to 1
      (publish_message (Message.push block) (run (unregisters bob ∷ registers alice ∷ []) hub))
    ≡ calls_to 1 (publish_message (Message.push block) (run (registers alice ∷ []) hub))
run-own_example =
    run-own 1 (unregisters bob ∷ registers alice ∷ []) (Message.push block) hub hub-IsValid

-- The first subscription asks for an identifier of any address.
match_event-subscription_of_example :
    (match_event (subscription_of 1 of_address) (event_at (codes "erd1a") (codes "transfer"))
      ≡ true)
    ↔ Wanted of_address (event_at (codes "erd1a") (codes "transfer"))
match_event-subscription_of_example =
    match_event-subscription_of 1 of_address (event_at (codes "erd1a") (codes "transfer"))

-- What Alice is called with: her push, and one revert for her two subscriptions.
revert_calls : calls_to 1 (publish_revert reverted hub) ≡ (alice, revert_event reverted) ∷ []
unfolding run apply_change lookup insert publish_once fill_dispatchers_map send_each subscribe
    register_dispatcher publish_revert match_subscribe_event new_subscription_mapper match_entries
    subscribe_entries append_subscription subscription_of default_subscription get_event_type
    match_level_from_input subscriptions group_all group str_eq
revert_calls = refl
