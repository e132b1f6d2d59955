-- ===== src/Hub.antt =====
-- dispatcher/hub/commonHub.go: the websocket subscribers, and what a publication sends to each.
--
-- An operation on the dispatchers returns the calls that it makes on them, in order. The mutexes make
-- each operation atomic, so the model runs one operation at a time.
pub mod Subscribers
pub mod Lifecycle
pub mod Isolation
use mx_chain_notifier_go.Base.{
  ℕ, List, [], ◌∷◌, ◌++◌, Option, none, some, Bool, GoString, lookup, insert, delete, nat_eq, keep,
}
use mx_chain_notifier_go.Errors.{
  Result, ok, require, ◌>>=◌, GoError, nil_event_filter, nil_subscription_mapper,
}
use mx_chain_notifier_go.Common.{
  push_logs_and_events, block_events, revert_block_events, finalized_block_events, block_txs,
  block_scrs,
}
use mx_chain_notifier_go.Data.{
  Event, BlockEvents, RevertBlock, FinalizedBlock, BlockTxs, BlockScrs, BlockEventsWithOrder,
  SubscribeEvent, Subscription,
}
use mx_chain_notifier_go.Dispatcher.{
  SubscriptionMapper, slice_at, match_subscribe_event, remove_subscriptions, subscriptions,
}

-- dispatcher.EventDispatcher: its id, and which object it is.
pub record EventDispatcher : Type 0 where
  pub id : ℕ
  pub object : ℕ

-- The methods of dispatcher.EventDispatcher that send.
pub data Delivery : Type 0 where
  push_events : List Event → Delivery
  revert_event : RevertBlock → Delivery
  finalized_event : FinalizedBlock → Delivery
  txs_event : BlockTxs → Delivery
  events_with_order : BlockEventsWithOrder → Delivery
  scrs_event : BlockScrs → Delivery

abbrev pub Call : Type 0
Call = EventDispatcher × Delivery

-- filters.EventFilter
abbrev pub EventFilter : Type 0
EventFilter = Subscription → Event → Bool

pub record CommonHub : Type 0 where
  pub filter : EventFilter
  pub subscription_mapper : SubscriptionMapper
  pub dispatchers : List (ℕ × EventDispatcher)

-- `NewCommonHub` with its `checkArgs`.
unfoldable pub new_common_hub : Option EventFilter → Option SubscriptionMapper → Result CommonHub
new_common_hub filter mapper = do
  f ← require filter nil_event_filter
  m ← require mapper nil_subscription_mapper
  ok (record { filter = f; subscription_mapper = m; dispatchers = [] })

unfoldable pub subscribe : SubscribeEvent → CommonHub → CommonHub
subscribe event h = record h {
  subscription_mapper = match_subscribe_event event h.subscription_mapper;
}

-- `RegisterEvent`: an id that is taken keeps its dispatcher.
unfoldable pub register_dispatcher : EventDispatcher → CommonHub → CommonHub
register_dispatcher d h = elim (lookup d.id h.dispatchers) [
  | none ↦ record h { dispatchers = insert d.id d h.dispatchers }
  | some other ↦ h
]

-- `UnregisterEvent`
unfoldable pub unregister_dispatcher : EventDispatcher → CommonHub → CommonHub
unregister_dispatcher d h = record h {
  dispatchers = elim (lookup d.id h.dispatchers) [
    | none ↦ h.dispatchers
    | some other ↦ delete d.id h.dispatchers
  ];
  subscription_mapper = remove_subscriptions d.id h.subscription_mapper;
}

-- `if d, ok := ch.dispatchers[id]; ok { d.<method>(event) }`
abbrev pub call_on : Option EventDispatcher → Delivery → List Call
call_on none x = []
call_on (some d) x = (d, x) ∷ []

unfoldable pub handle_push_block_events : BlockEvents → Subscription → CommonHub → List Call
handle_push_block_events b s h =
    call_on (lookup s.dispatcher_id h.dispatchers) (push_events (keep (h.filter s) b.events))

unfoldable pub push_each : BlockEvents → List Subscription → CommonHub → List Call
push_each b [] h = []
push_each b (s ∷ subs) h = handle_push_block_events b s h ++ push_each b subs h

unfoldable pub publish : BlockEvents → CommonHub → List Call
unfolding push_each handle_push_block_events
publish b h = push_each b (slice_at push_logs_and_events (subscriptions h.subscription_mapper)) h

-- `dispatchersMap[subscription.DispatcherID] = event`, for each subscription.
unfoldable pub fill_dispatchers_map :
    List Subscription → Delivery → List (ℕ × Delivery) → List (ℕ × Delivery)
fill_dispatchers_map [] x acc = acc
fill_dispatchers_map (s ∷ subs) x acc = fill_dispatchers_map subs x (insert s.dispatcher_id x acc)

-- The loop over `dispatchersMap`.
unfoldable pub send_each : List (ℕ × Delivery) → List (ℕ × EventDispatcher) → List Call
send_each [] ds = []
send_each ((id, x) ∷ m) ds = call_on (lookup id ds) x ++ send_each m ds

-- What the five methods below have in common: the event type, and the method that is called.
unfoldable pub publish_once : GoString → Delivery → CommonHub → List Call
unfolding fill_dispatchers_map send_each
publish_once t x h =
    send_each (fill_dispatchers_map (slice_at t (subscriptions h.subscription_mapper)) x [])
      h.dispatchers

unfoldable pub publish_revert : RevertBlock → CommonHub → List Call
publish_revert b = publish_once revert_block_events (revert_event b)

unfoldable pub publish_finalized : FinalizedBlock → CommonHub → List Call
publish_finalized b = publish_once finalized_block_events (finalized_event b)

unfoldable pub publish_txs : BlockTxs → CommonHub → List Call
publish_txs b = publish_once block_txs (txs_event b)

unfoldable pub publish_block_events_with_order : BlockEventsWithOrder → CommonHub → List Call
publish_block_events_with_order b = publish_once block_events (events_with_order b)

unfoldable pub publish_scrs : BlockScrs → CommonHub → List Call
publish_scrs b = publish_once block_scrs (scrs_event b)
