-- ===== src/WebSocket/Types.antt =====
-- dispatcher/hub/commonHub.go and dispatcher/ws/wsDispatcher.go: the type that a subscriber reads.
use mx_chain_notifier_go.Base.{
  ℕ, ◌≡◌, refl, inl, inr, List, [], ◌∷◌, Option, none, some, GoString, All, All-append, lookup,
  insert, nat_eq, Bool-cases, ◌==◌, keep,
}
use mx_chain_notifier_go.Common.{
  push_logs_and_events, block_events, revert_block_events, finalized_block_events, block_txs,
  block_scrs,
}
use mx_chain_notifier_go.Data.{Message, Subscription, BlockEvents}
use mx_chain_notifier_go.Dispatcher.{slice_at, subscriptions}
use mx_chain_notifier_go.Hub.{
  EventDispatcher, Delivery, Call, CommonHub, call_on, push_events, handle_push_block_events,
  push_each, publish, fill_dispatchers_map, send_each, publish_once, publish_revert,
  publish_finalized, publish_txs, publish_block_events_with_order, publish_scrs, revert_event,
  finalized_event, txs_event, scrs_event, events_with_order,
}
use mx_chain_notifier_go.Hub.Lifecycle.{publish_message}
use mx_chain_notifier_go.WebSocket.{WebsocketDispatcher, marshalled_as, bytes_to_send}

-- The event type that a client subscribes to for a message.
abbrev pub message_type : Message → GoString
message_type (Message.push b) = push_logs_and_events
message_type (Message.revert b) = revert_block_events
message_type (Message.finalized b) = finalized_block_events
message_type (Message.txs b) = block_txs
message_type (Message.scrs b) = block_scrs
message_type (Message.events_with_order b) = block_events

module _ (Q : Delivery → Type 0) where
  call_on-All :
      (o : Option EventDispatcher) (x : Delivery) → Q x → All (λ (c : Call). Q c.1) (call_on o x)
  call_on-All none x q = tt
  call_on-All (some d) x q = (q, tt)

  insert-All :
      (k : ℕ) (x : Delivery) (m : List (ℕ × Delivery))
      → Q x
      → All (λ e. Q e.1) m
      → All (λ e. Q e.1) (insert k x m)
  unfolding insert
  insert-All k x [] q h = (q, tt)
  insert-All k x ((j, y) ∷ m) q h = elim (Bool-cases (j == k)) [
    | inl same ↦ rw same (q, h.1)
    | inr other ↦ rw other (h.0, insert-All k x m q h.1)
  ]

  fill_dispatchers_map-All :
      (subs : List Subscription) (x : Delivery) (acc : List (ℕ × Delivery))
      → Q x
      → All (λ e. Q e.1) acc
      → All (λ e. Q e.1) (fill_dispatchers_map subs x acc)
  unfolding fill_dispatchers_map
  fill_dispatchers_map-All [] x acc q h = h
  fill_dispatchers_map-All (s ∷ subs) x acc q h =
      fill_dispatchers_map-All subs x _ q (insert-All s.dispatcher_id x acc q h)

  send_each-All :
      (m : List (ℕ × Delivery)) (ds : List (ℕ × EventDispatcher))
      → All (λ e. Q e.1) m
      → All (λ (c : Call). Q c.1) (send_each m ds)
  unfolding send_each
  send_each-All [] ds h = tt
  send_each-All ((id, x) ∷ m) ds h =
      All-append (λ (c : Call). Q c.1) (call_on (lookup id ds) x) (send_each m ds)
        (call_on-All (lookup id ds) x h.0) (send_each-All m ds h.1)

  publish_once-All :
      (t : GoString) (x : Delivery) (h : CommonHub)
      → Q x
      → All (λ (c : Call). Q c.1) (publish_once t x h)
  unfolding publish_once
  publish_once-All t x h q =
      send_each-All _ h.dispatchers
        (fill_dispatchers_map-All (slice_at t (subscriptions h.subscription_mapper)) x [] q tt)

  push_each-All :
      (b : BlockEvents) (subs : List Subscription) (h : CommonHub)
      → ((s : Subscription) → Q (push_events (keep (h.filter s) b.events)))
      → All (λ (c : Call). Q c.1) (push_each b subs h)
  unfolding push_each handle_push_block_events
  push_each-All b [] h q = tt
  push_each-All b (s ∷ subs) h q =
      All-append (λ (c : Call). Q c.1) (handle_push_block_events b s h) (push_each b subs h)
        (call_on-All (lookup s.dispatcher_id h.dispatchers)
          (push_events (keep (h.filter s) b.events)) (q s))
        (push_each-All b subs h q)

-- Whatever is published, each call that the hub makes becomes, at a websocket dispatcher, a websocket
-- event of the type under which the hub looked its subscribers up (or nothing after an error of the
-- marshaller).
publish_message-marshalled_as :
    (wd : WebsocketDispatcher) (m : Message) (h : CommonHub)
    → All
        (λ (c : Call). bytes_to_send wd c.1 ≡ marshalled_as wd (message_type m) c.1)
        (publish_message m h)
unfolding publish_message publish publish_revert publish_finalized publish_txs publish_scrs
    publish_block_events_with_order bytes_to_send
publish_message-marshalled_as wd (Message.push b) h =
    push_each-All (λ x. bytes_to_send wd x ≡ marshalled_as wd push_logs_and_events x) b _ h
      (λ s. refl)
publish_message-marshalled_as wd (Message.revert b) h =
    publish_once-All (λ x. bytes_to_send wd x ≡ marshalled_as wd revert_block_events x)
      revert_block_events (revert_event b) h refl
publish_message-marshalled_as wd (Message.finalized b) h =
    publish_once-All (λ x. bytes_to_send wd x ≡ marshalled_as wd finalized_block_events x)
      finalized_block_events (finalized_event b) h refl
publish_message-marshalled_as wd (Message.txs b) h =
    publish_once-All (λ x. bytes_to_send wd x ≡ marshalled_as wd block_txs x) block_txs
      (txs_event b) h refl
publish_message-marshalled_as wd (Message.scrs b) h =
    publish_once-All (λ x. bytes_to_send wd x ≡ marshalled_as wd block_scrs x) block_scrs
      (scrs_event b) h refl
publish_message-marshalled_as wd (Message.events_with_order b) h =
    publish_once-All (λ x. bytes_to_send wd x ≡ marshalled_as wd block_events x) block_events
      (events_with_order b) h refl
