-- ===== src/Filters.antt =====
-- filters/eventsFilter.go: whether an event is one that a subscription asks for.
pub mod Bloom
pub mod Levels
use mx_chain_notifier_go.Base.{Bool, true, false, ◌&&◌, str_eq, if◌then◌else◌}
use mx_chain_notifier_go.Data.{Subscription, Event}
use mx_chain_notifier_go.Dispatcher.{
  match_all, match_address, match_address_identifier, match_identifier, match_topics,
}

matches_topics : Subscription → Event → Bool
matches_topics subscription event = false

unfoldable pub match_event : Subscription → Event → Bool
unfolding matches_topics
match_event subscription event =
    if str_eq subscription.match_level match_all
    then true
    else if str_eq subscription.match_level match_address
    then str_eq event.address subscription.address
    else if str_eq subscription.match_level match_address_identifier
    then str_eq event.address subscription.address
      && str_eq event.identifier subscription.identifier
    else if str_eq subscription.match_level match_identifier
    then str_eq event.identifier subscription.identifier
    else if str_eq subscription.match_level match_topics
    then matches_topics subscription event
    else false
