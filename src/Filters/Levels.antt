-- ===== src/Filters/Levels.antt =====
-- filters/eventsFilter.go on the subscriptions that dispatcher/subscription.go makes.
use mx_chain_notifier_go.Base.{
  ℕ, ◌≡◌, ◌≢◌, ◌↔◌, refl, sym, ◌∙◌, Bool, true, not, ◌&&◌, ◌||◌, arith, str_eq, str_eq_iff, [],
  contains,
}
use mx_chain_notifier_go.Data.{SubscriptionEntry, Event}
use mx_chain_notifier_go.Dispatcher.{
  erd_tag, has_address, has_identifier, has_topics, match_level_from_input, subscription_of,
  default_subscription,
}
use mx_chain_notifier_go.Filters.{match_event}

-- What an entry has.
abbrev pub HasAddress : SubscriptionEntry → Type 0
HasAddress entry = contains entry.address erd_tag ≡ true

abbrev pub HasIdentifier : SubscriptionEntry → Type 0
HasIdentifier entry = entry.identifier ≢ []

abbrev pub HasTopics : SubscriptionEntry → Type 0
HasTopics entry = entry.topics ≢ []

-- What an entry asks for, with no level in between.
pub record Wanted (entry : SubscriptionEntry) (event : Event) : Type 0 where
  pub served : HasAddress entry → HasIdentifier entry → HasTopics entry → ⊥
  pub same_address : HasAddress entry → event.address ≡ entry.address
  pub same_identifier : HasIdentifier entry → event.identifier ≡ entry.identifier

-- The same as a test.
abbrev wanted : SubscriptionEntry → Event → Bool
wanted entry event =
    not (has_address entry && has_identifier entry && has_topics entry)
    && (not (has_address entry) || str_eq event.address entry.address)
    && (not (has_identifier entry) || str_eq event.identifier entry.identifier)

match_event-wanted :
    (id : ℕ) (entry : SubscriptionEntry) (event : Event)
    → match_event (subscription_of id entry) event ≡ wanted entry event
unfolding match_event subscription_of match_level_from_input str_eq
match_event-wanted id entry event = ground arith

has_address_iff : (entry : SubscriptionEntry) → (has_address entry ≡ true) ↔ HasAddress entry
unfolding str_eq contains
has_address_iff entry = ground (arith, str_eq_iff entry.address [])

has_identifier_iff :
    (entry : SubscriptionEntry) → (has_identifier entry ≡ true) ↔ HasIdentifier entry
has_identifier_iff entry = ground (arith, str_eq_iff entry.identifier [])

has_topics_iff : (entry : SubscriptionEntry) → (has_topics entry ≡ true) ↔ HasTopics entry
has_topics_iff entry = ground arith

wanted-Wanted :
    (entry : SubscriptionEntry) (event : Event) → (wanted entry event ≡ true) → Wanted entry event
wanted-Wanted entry event h = record {
  served = λ a i t. ground (
    arith,
    (has_address_iff entry).1 a,
    (has_identifier_iff entry).1 i,
    (has_topics_iff entry).1 t,
  );
  same_address =
      λ a. ground (arith, (has_address_iff entry).1 a, str_eq_iff event.address entry.address);
  same_identifier = λ i.
      ground (arith, (has_identifier_iff entry).1 i, str_eq_iff event.identifier entry.identifier);
}

Wanted-wanted :
    (entry : SubscriptionEntry) (event : Event) → Wanted entry event → wanted entry event ≡ true
Wanted-wanted entry event w = ground (
  arith,
  str_eq_iff event.address entry.address,
  str_eq_iff event.identifier entry.identifier,
  has_address_iff entry,
  has_identifier_iff entry,
  has_topics_iff entry,
)

-- The filter accepts an event for the subscription made from an entry exactly when the event has the
-- entry's address, if that contains "erd", and the entry's identifier, if that is not empty, and the
-- entry does not have such an address, an identifier and topics all at once.
pub match_event-subscription_of :
    (id : ℕ) (entry : SubscriptionEntry) (event : Event)
    → (match_event (subscription_of id entry) event ≡ true) ↔ Wanted entry event
match_event-subscription_of id entry event = (
  λ h. wanted-Wanted entry event (sym (match_event-wanted id entry event) ∙ h),
  λ w. match_event-wanted id entry event ∙ Wanted-wanted entry event w,
)

-- The subscription of a dispatcher that sent no entry accepts every event.
match_event-default : (id : ℕ) (event : Event) → match_event (default_subscription id) event ≡ true
unfolding match_event default_subscription str_eq
match_event-default id event = refl
