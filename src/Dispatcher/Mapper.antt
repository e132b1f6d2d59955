-- ===== src/Dispatcher/Mapper.antt =====
-- dispatcher/subscription.go: what each dispatcher is subscribed to after each operation.
use mx_chain_notifier_go.Base.{
  ℕ, List, [], ◌∷◌, ◌++◌, Bool, GoString, ◌≡◌, sym, arith, inl, inr, str_eq, str_eq_iff, ◌==◌,
  if◌then◌else◌, lookup, insert, lookup-insert, lookup-delete, nat_eq, string_eq, map, keep,
  keep-append, append-nil, append_assoc, Option-cases,
}
use mx_chain_notifier_go.Common.{
  push_logs_and_events, block_events, revert_block_events, finalized_block_events, block_txs,
  block_scrs,
}
use mx_chain_notifier_go.Data.{SubscriptionEntry, SubscribeEvent, Subscription}
use mx_chain_notifier_go.Dispatcher.{
  SubscriptionMapper, slice_at, slice_at_nat, append_subscription, get_event_type,
  default_subscription, subscription_of, subscribe_entries, match_entries, match_subscribe_event,
  remove_subscriptions, group, group_all, subscriptions,
}

-- The subscriptions of a dispatcher, oldest first.
abbrev pub subs_of : ℕ → SubscriptionMapper → List Subscription
subs_of id sm = slice_at_nat id sm.subscriptions

-- The subscriptions that a subscribe event asks for.
abbrev pub requested : ℕ → List SubscriptionEntry → List Subscription
requested id [] = default_subscription id ∷ []
requested id (entry ∷ rest) = map (subscription_of id) (entry ∷ rest)

subs_of-append :
    (j : ℕ) (sub : Subscription) (sm : SubscriptionMapper)
    → subs_of j (append_subscription sub sm)
      ≡ (if sub.dispatcher_id == j then subs_of j sm ++ sub ∷ [] else subs_of j sm)
unfolding append_subscription
subs_of-append j sub sm = ground (
  arith,
  lookup-insert sub.dispatcher_id j (slice_at_nat sub.dispatcher_id sm.subscriptions ++ sub ∷ [])
      sm.subscriptions,
)

subs_of-subscribe_entries :
    (id : ℕ) (entries : List SubscriptionEntry) (sm : SubscriptionMapper) (j : ℕ)
    → subs_of j (subscribe_entries id entries sm)
      ≡ (if id == j then subs_of j sm ++ map (subscription_of id) entries else subs_of j sm)
unfolding subscribe_entries subscription_of
subs_of-subscribe_entries id [] sm j = ground (arith, append-nil (subs_of j sm))
subs_of-subscribe_entries id (entry ∷ rest) sm j = ground (
  arith,
  subs_of-subscribe_entries id rest (append_subscription (subscription_of id entry) sm) j,
  subs_of-append j (subscription_of id entry) sm,
  append_assoc (subs_of j sm) (subscription_of id entry ∷ []) (map (subscription_of id) rest),
)

subs_of-match_entries :
    (id : ℕ) (entries : List SubscriptionEntry) (sm : SubscriptionMapper) (j : ℕ)
    → subs_of j (match_entries id entries sm)
      ≡ (if id == j then subs_of j sm ++ requested id entries else subs_of j sm)
unfolding match_entries default_subscription
subs_of-match_entries id [] sm j = subs_of-append j (default_subscription id) sm
subs_of-match_entries id (entry ∷ rest) sm j = subs_of-subscribe_entries id (entry ∷ rest) sm j

-- A subscribe event adds, behind the subscriptions that its dispatcher has, one for each of its
-- entries in their order, or the match-all subscription to pushed events if it has no entry; it
-- leaves the other dispatchers' subscriptions as they are.
pub match_subscribe_event_lem :
    (event : SubscribeEvent) (sm : SubscriptionMapper) (j : ℕ)
    → subs_of j (match_subscribe_event event sm) ≡ (
        if event.dispatcher_id == j
        then subs_of j sm ++ requested event.dispatcher_id event.subscription_entries
        else subs_of j sm)
unfolding match_subscribe_event
match_subscribe_event_lem event sm j =
    subs_of-match_entries event.dispatcher_id event.subscription_entries sm j

-- Removing a dispatcher's subscriptions leaves it none, and the others theirs.
pub remove_subscriptions_lem :
    (id : ℕ) (sm : SubscriptionMapper) (j : ℕ)
    → subs_of j (remove_subscriptions id sm) ≡ (if id == j then [] else subs_of j sm)
unfolding remove_subscriptions
remove_subscriptions_lem id sm j = elim (Option-cases (lookup id sm.subscriptions)) [
  | inl e ↦ ground (arith, e)
  | inr (l, e) ↦ ground (arith, e, lookup-delete id j sm.subscriptions)
]

abbrev pub has_type : GoString → Subscription → Bool
has_type t s = str_eq s.event_type t

-- All subscriptions, in the order in which the map is walked.
abbrev pub all_subs : List (ℕ × List Subscription) → List Subscription
all_subs [] = []
all_subs ((id, subs) ∷ m) = subs ++ all_subs m

slice_at-group :
    (subs : List Subscription) (acc : List (GoString × List Subscription)) (t : GoString)
    → slice_at t (group subs acc) ≡ slice_at t acc ++ keep (has_type t) subs
unfolding group
slice_at-group [] acc t = sym (append-nil (slice_at t acc))
slice_at-group (s ∷ subs) acc t = ground (
  arith,
  slice_at-group subs (insert s.event_type (slice_at s.event_type acc ++ s ∷ []) acc) t,
  lookup-insert s.event_type t (slice_at s.event_type acc ++ s ∷ []) acc,
  str_eq_iff s.event_type t,
  append_assoc (slice_at t acc) (s ∷ []) (keep (has_type t) subs),
)

slice_at-group_all :
    (m : List (ℕ × List Subscription)) (acc : List (GoString × List Subscription)) (t : GoString)
    → slice_at t (group_all m acc) ≡ slice_at t acc ++ keep (has_type t) (all_subs m)
unfolding group_all
slice_at-group_all [] acc t = sym (append-nil (slice_at t acc))
slice_at-group_all ((id, subs) ∷ m) acc t = ground (
  arith,
  slice_at-group_all m (group subs acc) t,
  slice_at-group subs acc t,
  keep-append (has_type t) subs (all_subs m),
  append_assoc (slice_at t acc) (keep (has_type t) subs) (keep (has_type t) (all_subs m)),
)

-- The slice that `Subscriptions` gives for an event type holds exactly the subscriptions of that
-- type, of all dispatchers, in the order of the map and then of their creation.
pub slice_at-subscriptions :
    (sm : SubscriptionMapper) (t : GoString)
    → slice_at t (subscriptions sm) ≡ keep (has_type t) (all_subs sm.subscriptions)
unfolding subscriptions lookup
slice_at-subscriptions sm t = slice_at-group_all sm.subscriptions [] t

-- The six event types that a publisher looks up.
pub data IsEventType : GoString → Type 0 where
  push_type : IsEventType push_logs_and_events
  order_type : IsEventType block_events
  revert_type : IsEventType revert_block_events
  finalized_type : IsEventType finalized_block_events
  txs_type : IsEventType block_txs
  scrs_type : IsEventType block_scrs

-- Whatever a client writes, the event type of its subscription is one of the six that are published.
get_event_type-IsEventType : (entry : SubscriptionEntry) → IsEventType (get_event_type entry)
unfolding get_event_type
get_event_type-IsEventType entry =
    grind
      (arith, str_eq_iff, push_type, order_type, revert_type, finalized_type, txs_type, scrs_type)
