-- ===== src/Dispatcher/Ownership.antt =====
-- dispatcher/subscription.go: every subscription stands under the id of its dispatcher.
use mx_chain_notifier_go.Base.{
  ℕ, List, [], ◌∷◌, Bool, GoString, ◌≡◌, refl, ◌∙◌, ap, arith, inl, inr, ◌==◌, ==_iff,
  if◌then◌else◌, lookup, insert, delete, nat_eq, keep, keep-append, keep-keep, append-nil,
  Option-cases, All, All-append, Unique, Unique-insert, Unique-delete,
}
use mx_chain_notifier_go.Data.{SubscriptionEntry, SubscribeEvent, Subscription}
use mx_chain_notifier_go.Dispatcher.{
  SubscriptionMapper, new_subscription_mapper, slice_at, slice_at_nat, append_subscription,
  default_subscription, subscription_of, subscribe_entries, match_entries, match_subscribe_event,
  remove_subscriptions, subscriptions,
}
use mx_chain_notifier_go.Dispatcher.Mapper.{subs_of, has_type, all_subs, slice_at-subscriptions}

abbrev pub belongs_to : ℕ → Subscription → Bool
belongs_to id s = s.dispatcher_id == id

abbrev AllBelong : ℕ → List Subscription → Type 0
AllBelong id subs = All (λ s. s.dispatcher_id ≡ id) subs

abbrev AllOwned : List (ℕ × List Subscription) → Type 0
AllOwned m = All (λ e. AllBelong e.0 e.1) m

pub record Owned (sm : SubscriptionMapper) : Type 0 where
  pub unique : Unique sm.subscriptions
  pub owned : AllOwned sm.subscriptions

keep-belongs_to :
    (id j : ℕ) (subs : List Subscription)
    → AllBelong id subs
    → keep (belongs_to j) subs ≡ (if id == j then subs else [])
keep-belongs_to id j [] h = ground arith
keep-belongs_to id j (s ∷ subs) h = ground (arith, keep-belongs_to id j subs h.1)

slice-AllBelong :
    (id : ℕ) (m : List (ℕ × List Subscription)) → AllOwned m → AllBelong id (slice_at_nat id m)
unfolding lookup
slice-AllBelong id [] h = tt
slice-AllBelong id ((k, subs) ∷ m) h = ground (arith, ==_iff k id, slice-AllBelong id m h.1)

insert-AllOwned :
    (id : ℕ) (subs : List Subscription) (m : List (ℕ × List Subscription))
    → AllBelong id subs
    → AllOwned m
    → AllOwned (insert id subs m)
unfolding insert
insert-AllOwned id subs [] b h = (b, tt)
insert-AllOwned id subs ((k, l) ∷ m) b h = ground (arith, insert-AllOwned id subs m b h.1)

delete-AllOwned : (id : ℕ) (m : List (ℕ × List Subscription)) → AllOwned m → AllOwned (delete id m)
unfolding delete
delete-AllOwned id [] h = tt
delete-AllOwned id ((k, l) ∷ m) h = ground (arith, delete-AllOwned id m h.1)

pub new-Owned : Owned new_subscription_mapper
unfolding new_subscription_mapper
new-Owned = record { unique = tt; owned = tt }

append_subscription-Owned :
    (s : Subscription) (sm : SubscriptionMapper) → Owned sm → Owned (append_subscription s sm)
unfolding append_subscription
append_subscription-Owned s sm o = record {
  unique = Unique-insert s.dispatcher_id _ sm.subscriptions o.unique;
  owned =
      insert-AllOwned s.dispatcher_id _ sm.subscriptions
        (All-append _ (slice_at_nat s.dispatcher_id sm.subscriptions) (s ∷ [])
          (slice-AllBelong s.dispatcher_id sm.subscriptions o.owned) (refl, tt))
        o.owned;
}

subscribe_entries-Owned :
    (id : ℕ) (entries : List SubscriptionEntry) (sm : SubscriptionMapper)
    → Owned sm
    → Owned (subscribe_entries id entries sm)
unfolding subscribe_entries
subscribe_entries-Owned id [] sm o = o
subscribe_entries-Owned id (entry ∷ rest) sm o =
    subscribe_entries-Owned id rest _ (append_subscription-Owned (subscription_of id entry) sm o)

match_entries-Owned :
    (id : ℕ) (entries : List SubscriptionEntry) (sm : SubscriptionMapper)
    → Owned sm
    → Owned (match_entries id entries sm)
unfolding match_entries
match_entries-Owned id [] sm o = append_subscription-Owned (default_subscription id) sm o
match_entries-Owned id (entry ∷ rest) sm o = subscribe_entries-Owned id (entry ∷ rest) sm o

pub match_subscribe_event-Owned :
    (event : SubscribeEvent) (sm : SubscriptionMapper)
    → Owned sm
    → Owned (match_subscribe_event event sm)
unfolding match_subscribe_event
match_subscribe_event-Owned event sm o =
    match_entries-Owned event.dispatcher_id event.subscription_entries sm o

pub remove_subscriptions-Owned :
    (id : ℕ) (sm : SubscriptionMapper) → Owned sm → Owned (remove_subscriptions id sm)
unfolding remove_subscriptions
remove_subscriptions-Owned id sm o = elim (Option-cases (lookup id sm.subscriptions)) [
  | inl e ↦ rw (e, remove_subscriptions) o
  | inr (l, e) ↦
      rw (e, remove_subscriptions)
        (record {
          unique = Unique-delete id sm.subscriptions o.unique;
          owned = delete-AllOwned id sm.subscriptions o.owned;
        })
]

keep-all_subs :
    (j : ℕ) (m : List (ℕ × List Subscription))
    → Unique m
    → AllOwned m
    → keep (belongs_to j) (all_subs m) ≡ slice_at_nat j m
unfolding lookup
keep-all_subs j [] u h = refl
keep-all_subs j ((k, subs) ∷ m) u h = ground (
  arith,
  ==_iff k j,
  keep-append (belongs_to j) subs (all_subs m),
  keep-belongs_to k j subs h.0,
  keep-all_subs j m u.1 h.1,
  append-nil subs,
)

-- Of the subscriptions of an event type, those of one dispatcher are the ones that it made.
pub keep-subscriptions :
    (sm : SubscriptionMapper) (t : GoString) (j : ℕ)
    → Owned sm
    → keep (belongs_to j) (slice_at t (subscriptions sm)) ≡ keep (has_type t) (subs_of j sm)
keep-subscriptions sm t j o =
    ap (keep (belongs_to j)) (slice_at-subscriptions sm t)
    ∙ keep-keep (belongs_to j) (has_type t) (all_subs sm.subscriptions)
    ∙ ap (keep (has_type t)) (keep-all_subs j sm.subscriptions o.unique o.owned)
