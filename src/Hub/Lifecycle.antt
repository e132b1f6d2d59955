-- ===== src/Hub/Lifecycle.antt =====
-- dispatcher/hub/commonHub.go: dispatchers come and go, and the hub stays well formed.
use mx_chain_notifier_go.Base.{
  ℕ, List, [], ◌∷◌, none, some, ◌≡◌, ◌∙◌, subst, arith, inl, inr, ◌==◌, ==_iff, if◌then◌else◌,
  lookup, lookup-insert, lookup-delete, nat_eq, keep, Option-cases,
}
use mx_chain_notifier_go.Errors.{ok}
use mx_chain_notifier_go.Common.{
  push_logs_and_events, block_events, revert_block_events, finalized_block_events, block_txs,
  block_scrs,
}
use mx_chain_notifier_go.Data.{SubscribeEvent, Message, push, revert, finalized, txs, scrs}
use mx_chain_notifier_go.Dispatcher.{new_subscription_mapper}
use mx_chain_notifier_go.Dispatcher.Mapper.{subs_of, has_type}
use mx_chain_notifier_go.Dispatcher.Ownership.{
  new-Owned, match_subscribe_event-Owned, remove_subscriptions-Owned,
}
use mx_chain_notifier_go.Hub.{
  EventDispatcher, revert_event, finalized_event, txs_event, events_with_order, scrs_event, Call,
  EventFilter, CommonHub, new_common_hub, subscribe, register_dispatcher, unregister_dispatcher,
  publish, publish_revert, publish_finalized, publish_txs, publish_block_events_with_order,
  publish_scrs,
}
use mx_chain_notifier_go.Hub.Subscribers.{
  IsValid, calls_to, once_if_subscribed, calls_to-publish_once, pushes_to, publish_lem,
}

-- What changes a hub.
pub data Change : Type 0 where
  subscribes : SubscribeEvent → Change
  registers : EventDispatcher → Change
  unregisters : EventDispatcher → Change

unfoldable pub apply_change : Change → CommonHub → CommonHub
apply_change (subscribes event) h = subscribe event h
apply_change (registers d) h = register_dispatcher d h
apply_change (unregisters d) h = unregister_dispatcher d h

unfoldable pub run : List Change → CommonHub → CommonHub
run [] h = h
run (c ∷ cs) h = run cs (apply_change c h)

-- The publisher's handler interface: each message goes to its method.
unfoldable pub publish_message : Message → CommonHub → List Call
publish_message (push b) = publish b
publish_message (revert b) = publish_revert b
publish_message (finalized b) = publish_finalized b
publish_message (txs b) = publish_txs b
publish_message (scrs b) = publish_scrs b
publish_message (Message.events_with_order b) = publish_block_events_with_order b

register_dispatcher-IsValid :
    (d : EventDispatcher) (h : CommonHub) → IsValid h → IsValid (register_dispatcher d h)
unfolding register_dispatcher
register_dispatcher-IsValid d h v = elim (Option-cases (lookup d.id h.dispatchers)) [
  | inl e ↦
      rw (e, register_dispatcher)
        (record {
          named = λ i c k.
              ground (arith, k, ==_iff d.id i, lookup-insert d.id i d h.dispatchers, v.named i c);
          owned = v.owned;
        })
  | inr (c, e) ↦ rw (e, register_dispatcher) v
]

pub lookup-unregister :
    (d : EventDispatcher) (h : CommonHub) (i : ℕ)
    → lookup i (unregister_dispatcher d h).dispatchers
      ≡ (if d.id == i then none else lookup i h.dispatchers)
unfolding unregister_dispatcher
lookup-unregister d h i = elim (Option-cases (lookup d.id h.dispatchers)) [
  | inl e ↦ ground (arith, e, ==_iff d.id i)
  | inr (c, e) ↦ ground (arith, e, lookup-delete d.id i h.dispatchers)
]

unregister_dispatcher-IsValid :
    (d : EventDispatcher) (h : CommonHub) → IsValid h → IsValid (unregister_dispatcher d h)
unregister_dispatcher-IsValid d h v = record {
  named = λ i c k. ground (arith, k, lookup-unregister d h i, v.named i c);
  owned =
      unfold unregister_dispatcher in remove_subscriptions-Owned d.id h.subscription_mapper v.owned;
}

pub subscribe-IsValid :
    (event : SubscribeEvent) (h : CommonHub) → IsValid h → IsValid (subscribe event h)
unfolding subscribe
subscribe-IsValid event h v = record {
  named = v.named;
  owned = match_subscribe_event-Owned event h.subscription_mapper v.owned;
}

apply_change-IsValid : (c : Change) (h : CommonHub) → IsValid h → IsValid (apply_change c h)
unfolding apply_change
apply_change-IsValid (subscribes event) h v = subscribe-IsValid event h v
apply_change-IsValid (registers d) h v = register_dispatcher-IsValid d h v
apply_change-IsValid (unregisters d) h v = unregister_dispatcher-IsValid d h v

pub run-keeps_IsValid : (cs : List Change) (h : CommonHub) → IsValid h → IsValid (run cs h)
unfolding run
run-keeps_IsValid [] h v = v
run-keeps_IsValid (c ∷ cs) h v = run-keeps_IsValid cs _ (apply_change-IsValid c h v)

pub run-IsValid :
    (filter : EventFilter) (cs : List Change) {h : CommonHub}
    → new_common_hub (some filter) (some new_subscription_mapper) ≡ ok h
    → IsValid (run cs h)
unfolding new_common_hub lookup
run-IsValid filter cs {h} e =
    let new : CommonHub = record {
      filter = filter;
      subscription_mapper = new_subscription_mapper;
      dispatchers = [];
    } in
    let made : new ≡ h = ground arith in
    run-keeps_IsValid cs h (subst IsValid made (record { named = λ i d k. cc; owned = new-Owned }))

-- What a publication owes to a dispatcher.
abbrev pub owed : ℕ → Message → CommonHub → List Call
owed i (push b) h =
    pushes_to h.filter b (lookup i h.dispatchers)
      (keep (has_type push_logs_and_events) (subs_of i h.subscription_mapper))
owed i (revert b) h = once_if_subscribed i revert_block_events (revert_event b) h
owed i (finalized b) h = once_if_subscribed i finalized_block_events (finalized_event b) h
owed i (txs b) h = once_if_subscribed i block_txs (txs_event b) h
owed i (scrs b) h = once_if_subscribed i block_scrs (scrs_event b) h
owed i (Message.events_with_order b) h = once_if_subscribed i block_events (events_with_order b) h

pub calls_to-publish_message :
    (i : ℕ) (m : Message) (h : CommonHub)
    → IsValid h
    → calls_to i (publish_message m h) ≡ owed i m h
unfolding publish_message publish_revert publish_finalized publish_txs publish_scrs
    publish_block_events_with_order
calls_to-publish_message i (push b) h v = publish_lem h i b v
calls_to-publish_message i (revert b) h v =
    calls_to-publish_once h i revert_block_events (revert_event b) v
calls_to-publish_message i (finalized b) h v =
    calls_to-publish_once h i finalized_block_events (finalized_event b) v
calls_to-publish_message i (txs b) h v = calls_to-publish_once h i block_txs (txs_event b) v
calls_to-publish_message i (scrs b) h v = calls_to-publish_once h i block_scrs (scrs_event b) v
calls_to-publish_message i (Message.events_with_order b) h v =
    calls_to-publish_once h i block_events (events_with_order b) v

-- Once a dispatcher is unregistered no publication calls it.
pub unregister_dispatcher-silent :
    (d : EventDispatcher) (h : CommonHub) (m : Message)
    → IsValid h
    → calls_to d.id (publish_message m (unregister_dispatcher d h)) ≡ []
unregister_dispatcher-silent d h m v =
    calls_to-publish_message d.id m _ (unregister_dispatcher-IsValid d h v) ∙ nothing m
  where
    absent : lookup d.id (unregister_dispatcher d h).dispatchers ≡ none
    absent = ground (arith, lookup-unregister d h d.id)

    nothing : (m : Message) → owed d.id m (unregister_dispatcher d h) ≡ []
    nothing (push b) = rw absent
    nothing (revert b) = ground (arith, absent)
    nothing (finalized b) = ground (arith, absent)
    nothing (txs b) = ground (arith, absent)
    nothing (scrs b) = ground (arith, absent)
    nothing (Message.events_with_order b) = ground (arith, absent)
