-- ===== src/Hub/Subscribers.antt =====
-- dispatcher/hub/commonHub.go: what one dispatcher gets of each publication.
use mx_chain_notifier_go.Base.{
  ℕ, List, [], ◌∷◌, Option, none, some, GoString, ◌≡◌, refl, ◌∙◌, ap, arith, inl, inr, ◌==◌, ==_iff,
  if◌then◌else◌, lookup, insert, lookup-insert, nat_eq, keep, keep-append, any, is_empty,
  any-is_empty, append-nil, Option-cases, Unique, Unique-insert,
}
use mx_chain_notifier_go.Common.{
  push_logs_and_events, block_events, revert_block_events, finalized_block_events, block_txs,
  block_scrs,
}
use mx_chain_notifier_go.Data.{
  BlockEvents, RevertBlock, FinalizedBlock, BlockTxs, BlockScrs, BlockEventsWithOrder, Subscription,
}
use mx_chain_notifier_go.Dispatcher.{slice_at, subscriptions}
use mx_chain_notifier_go.Dispatcher.Mapper.{subs_of, has_type}
use mx_chain_notifier_go.Dispatcher.Ownership.{belongs_to, Owned, keep-subscriptions}
use mx_chain_notifier_go.Hub.{
  EventDispatcher, Delivery, push_events, revert_event, finalized_event, txs_event,
  events_with_order, scrs_event, Call, EventFilter, CommonHub, call_on, handle_push_block_events,
  push_each, publish, fill_dispatchers_map, send_each, publish_once, publish_revert,
  publish_finalized, publish_txs, publish_block_events_with_order, publish_scrs,
}

-- Each dispatcher is registered under its own id, and each subscription stands under its owner's.
pub record IsValid (h : CommonHub) : Type 0 where
  pub named : (id : ℕ) (d : EventDispatcher) → lookup id h.dispatchers ≡ some d → d.id ≡ id
  pub owned : Owned h.subscription_mapper

-- The calls on the dispatcher with an id.
abbrev pub calls_to : ℕ → List Call → List Call
calls_to id = keep (λ c. c.0.id == id)

module _ (ds : List (ℕ × EventDispatcher))
    (named : (id : ℕ) (d : EventDispatcher) → lookup id ds ≡ some d → d.id ≡ id) where
  calls_to-call_on :
      (i k : ℕ) (x : Delivery)
      → calls_to i (call_on (lookup k ds) x) ≡ (if k == i then call_on (lookup k ds) x else [])
  calls_to-call_on i k x = elim (Option-cases (lookup k ds)) [
    | inl e ↦ ground (arith, e)
    | inr (d, e) ↦ ground (arith, e, named k d e)
  ]

  abbrev one_call : Option Delivery → Option EventDispatcher → List Call
  one_call none d = []
  one_call (some x) d = call_on d x

  calls_to-send_each :
      (i : ℕ) (m : List (ℕ × Delivery))
      → Unique m
      → calls_to i (send_each m ds) ≡ one_call (lookup i m) (lookup i ds)
  unfolding send_each lookup
  calls_to-send_each i [] u = refl
  calls_to-send_each i ((k, x) ∷ m) u = ground (
    arith,
    ==_iff k i,
    keep-append (λ (c : Call). c.0.id == i) (call_on (lookup k ds) x) (send_each m ds),
    calls_to-call_on i k x,
    calls_to-send_each i m u.1,
    append-nil (call_on (lookup k ds) x),
  )

lookup-fill_dispatchers_map :
    (i : ℕ) (subs : List Subscription) (x : Delivery) (acc : List (ℕ × Delivery))
    → lookup i (fill_dispatchers_map subs x acc)
      ≡ (if any (belongs_to i) subs then some x else lookup i acc)
unfolding fill_dispatchers_map
lookup-fill_dispatchers_map i [] x acc = refl
lookup-fill_dispatchers_map i (s ∷ subs) x acc = ground (
  arith,
  lookup-fill_dispatchers_map i subs x (insert s.dispatcher_id x acc),
  lookup-insert s.dispatcher_id i x acc,
)

fill_dispatchers_map-Unique :
    (subs : List Subscription) (x : Delivery) (acc : List (ℕ × Delivery))
    → Unique acc
    → Unique (fill_dispatchers_map subs x acc)
unfolding fill_dispatchers_map
fill_dispatchers_map-Unique [] x acc u = u
fill_dispatchers_map-Unique (s ∷ subs) x acc u =
    fill_dispatchers_map-Unique subs x _ (Unique-insert s.dispatcher_id x acc u)

-- What a dispatcher is sent: one call if it is registered and one of its own subscriptions is of the
-- event type, and else none.
abbrev pub once_if_subscribed : ℕ → GoString → Delivery → CommonHub → List Call
once_if_subscribed id t x h =
    if is_empty (keep (has_type t) (subs_of id h.subscription_mapper))
    then []
    else call_on (lookup id h.dispatchers) x

pub calls_to-publish_once :
    (h : CommonHub) (i : ℕ) (t : GoString) (x : Delivery)
    → IsValid h
    → calls_to i (publish_once t x h) ≡ once_if_subscribed i t x h
unfolding publish_once
calls_to-publish_once h i t x v =
    let subs = slice_at t (subscriptions h.subscription_mapper) in
    ground (
      arith,
      calls_to-send_each h.dispatchers v.named i (fill_dispatchers_map subs x [])
          (fill_dispatchers_map-Unique subs x [] tt),
      lookup-fill_dispatchers_map i subs x [],
      lookup_nil i,
      any-is_empty (belongs_to i) subs,
      keep-subscriptions h.subscription_mapper t i v.owned,
    )
  where
    lookup_nil : (i : ℕ) → lookup {V = Delivery} i [] ≡ none
    lookup_nil i = unfold lookup in refl

-- A publication other than of pushed events makes one call on each registered dispatcher that has a
-- subscription of its event type, however many it has, and none on any other.
pub publish_once_each :
    (h : CommonHub) (id : ℕ) (r : RevertBlock) (f : FinalizedBlock) (t : BlockTxs) (s : BlockScrs)
    (o : BlockEventsWithOrder)
    → IsValid h
    → (calls_to id (publish_revert r h)
        ≡ once_if_subscribed id revert_block_events (revert_event r) h)
      × (calls_to id (publish_finalized f h)
          ≡ once_if_subscribed id finalized_block_events (finalized_event f) h)
      × (calls_to id (publish_txs t h) ≡ once_if_subscribed id block_txs (txs_event t) h)
      × (calls_to id (publish_scrs s h) ≡ once_if_subscribed id block_scrs (scrs_event s) h)
      × (calls_to id (publish_block_events_with_order o h)
          ≡ once_if_subscribed id block_events (events_with_order o) h)
unfolding publish_revert publish_finalized publish_txs publish_scrs publish_block_events_with_order
publish_once_each h id r f t s o v = (
  calls_to-publish_once h id revert_block_events (revert_event r) v,
  calls_to-publish_once h id finalized_block_events (finalized_event f) v,
  calls_to-publish_once h id block_txs (txs_event t) v,
  calls_to-publish_once h id block_scrs (scrs_event s) v,
  calls_to-publish_once h id block_events (events_with_order o) v,
)

-- For each of the subscriptions given, a push of the events that pass its filter.
abbrev pub pushes : EventFilter → BlockEvents → EventDispatcher → List Subscription → List Call
pushes f b d [] = []
pushes f b d (s ∷ subs) = (d, push_events (keep (f s) b.events)) ∷ pushes f b d subs

abbrev pub pushes_to :
    EventFilter → BlockEvents → Option EventDispatcher → List Subscription → List Call
pushes_to f b none subs = []
pushes_to f b (some d) subs = pushes f b d subs

calls_to-push_each :
    (h : CommonHub) (b : BlockEvents) (i : ℕ) (subs : List Subscription)
    → IsValid h
    → calls_to i (push_each b subs h)
      ≡ pushes_to h.filter b (lookup i h.dispatchers) (keep (belongs_to i) subs)
unfolding push_each handle_push_block_events
calls_to-push_each h b i [] v = ground arith
calls_to-push_each h b i (s ∷ subs) v =
    let x = push_events (keep (h.filter s) b.events) in
    ground (
      arith,
      ==_iff s.dispatcher_id i,
      keep-append (λ (c : Call). c.0.id == i) (call_on (lookup s.dispatcher_id h.dispatchers) x)
          (push_each b subs h),
      calls_to-call_on h.dispatchers v.named i s.dispatcher_id x,
      calls_to-push_each h b i subs v,
    )

-- A publication of pushed events calls a registered dispatcher once for each of its subscriptions to
-- pushed events, in their order, with exactly the events that the subscription's filter accepts
-- (also when there are none), and calls no dispatcher that is not registered.
pub publish_lem :
    (h : CommonHub) (id : ℕ) (b : BlockEvents)
    → IsValid h
    → calls_to id (publish b h)
      ≡ pushes_to h.filter b
          (lookup id h.dispatchers)
          (keep (has_type push_logs_and_events) (subs_of id h.subscription_mapper))
unfolding publish
publish_lem h id b v =
    calls_to-push_each h b id (slice_at push_logs_and_events (subscriptions h.subscription_mapper))
      v
    ∙ ap (pushes_to h.filter b (lookup id h.dispatchers))
        (keep-subscriptions h.subscription_mapper push_logs_and_events id v.owned)
