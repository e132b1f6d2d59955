-- ===== src/Dispatcher.antt =====
-- dispatcher/subscription.go: the subscriptions of each dispatcher, and the level that an entry gets.
pub mod Mapper
pub mod Ownership
use mx_chain_notifier_go.Base.{
  ℕ, List, [], ◌∷◌, ◌++◌, Option, none, some, Bool, true, false, ◌&&◌, ◌||◌, not, GoString, codes,
  str_eq, if◌then◌else◌, lookup, insert, delete, nat_eq, string_eq, contains, ltb, length, map,
  zero,
}
use mx_chain_notifier_go.Common.{
  push_logs_and_events, block_events, revert_block_events, finalized_block_events, block_txs,
  block_scrs,
}
use mx_chain_notifier_go.Data.{SubscriptionEntry, SubscribeEvent, Subscription}

abbrev pub match_all : GoString
match_all = codes "*"

abbrev pub match_address : GoString
match_address = codes "match:address"

abbrev pub match_address_identifier : GoString
match_address_identifier = codes "match:addressIdentifier"

abbrev pub match_identifier : GoString
match_identifier = codes "match:identifier"

abbrev pub match_topics : GoString
match_topics = codes "match:topics"

abbrev pub erd_tag : GoString
erd_tag = codes "erd"

pub record SubscriptionMapper : Type 0 where
  pub subscriptions : List (ℕ × List Subscription)

unfoldable pub new_subscription_mapper : SubscriptionMapper
new_subscription_mapper = record { subscriptions = [] }

-- `m[k]` at a slice type: a missing key gives the nil slice.
abbrev pub slice_at_nat : ℕ → List (ℕ × List Subscription) → List Subscription
slice_at_nat k m = elim (lookup k m) [ none ↦ [] | some l ↦ l ]

abbrev pub slice_at : GoString → List (GoString × List Subscription) → List Subscription
slice_at k m = elim (lookup k m) [ none ↦ [] | some l ↦ l ]

unfoldable pub append_subscription : Subscription → SubscriptionMapper → SubscriptionMapper
append_subscription sub sm = record {
  subscriptions =
      insert sub.dispatcher_id (slice_at_nat sub.dispatcher_id sm.subscriptions ++ sub ∷ [])
        sm.subscriptions;
}

abbrev pub has_address : SubscriptionEntry → Bool
has_address entry = not (str_eq entry.address []) && contains entry.address erd_tag

abbrev pub has_identifier : SubscriptionEntry → Bool
has_identifier entry = not (str_eq entry.identifier [])

abbrev pub has_topics : SubscriptionEntry → Bool
has_topics entry = ltb zero (length entry.topics)

unfoldable pub match_level_from_input : SubscriptionEntry → GoString
match_level_from_input entry =
    if has_address entry && has_identifier entry && has_topics entry
    then match_topics
    else if has_address entry && has_identifier entry
    then match_address_identifier
    else if has_identifier entry
    then match_identifier
    else if has_address entry
    then match_address
    else match_all

unfoldable pub get_event_type : SubscriptionEntry → GoString
get_event_type entry =
    if str_eq entry.event_type finalized_block_events
      || str_eq entry.event_type revert_block_events
      || str_eq entry.event_type block_txs
      || str_eq entry.event_type block_scrs
      || str_eq entry.event_type block_events
    then entry.event_type
    else push_logs_and_events

-- The `Subscription` literals of `MatchSubscribeEvent`.
unfoldable pub default_subscription : ℕ → Subscription
default_subscription id = record {
  address = [];
  identifier = [];
  topics = [];
  match_level = match_all;
  event_type = push_logs_and_events;
  dispatcher_id = id;
}

unfoldable pub subscription_of : ℕ → SubscriptionEntry → Subscription
subscription_of id entry = record {
  address = entry.address;
  identifier = entry.identifier;
  topics = entry.topics;
  match_level = match_level_from_input entry;
  event_type = get_event_type entry;
  dispatcher_id = id;
}

unfoldable pub subscribe_entries :
    ℕ → List SubscriptionEntry → SubscriptionMapper → SubscriptionMapper
subscribe_entries id [] sm = sm
subscribe_entries id (entry ∷ rest) sm =
    subscribe_entries id rest (append_subscription (subscription_of id entry) sm)

unfoldable pub match_entries : ℕ → List SubscriptionEntry → SubscriptionMapper → SubscriptionMapper
match_entries id [] sm = append_subscription (default_subscription id) sm
match_entries id (entry ∷ rest) sm = subscribe_entries id (entry ∷ rest) sm

unfoldable pub match_subscribe_event : SubscribeEvent → SubscriptionMapper → SubscriptionMapper
unfolding match_entries
match_subscribe_event event sm = match_entries event.dispatcher_id event.subscription_entries sm

unfoldable pub remove_subscriptions : ℕ → SubscriptionMapper → SubscriptionMapper
remove_subscriptions id sm = elim (lookup id sm.subscriptions) [
  | none ↦ sm
  | some l ↦ record { subscriptions = delete id sm.subscriptions }
]

-- The inner loop of `Subscriptions`, and the outer one.
unfoldable pub group :
    List Subscription → List (GoString × List Subscription) → List (GoString × List Subscription)
group [] acc = acc
group (s ∷ subs) acc = group subs (insert s.event_type (slice_at s.event_type acc ++ s ∷ []) acc)

unfoldable pub group_all :
    List (ℕ × List Subscription)
    → List (GoString × List Subscription)
    → List (GoString × List Subscription)
group_all [] acc = acc
group_all ((id, subs) ∷ m) acc = group_all m (group subs acc)

unfoldable pub subscriptions : SubscriptionMapper → List (GoString × List Subscription)
unfolding group_all
subscriptions sm = group_all sm.subscriptions []
