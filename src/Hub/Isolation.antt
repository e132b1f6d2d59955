-- ===== src/Hub/Isolation.antt =====
-- dispatcher/hub/commonHub.go: a dispatcher gets what its own subscriptions, registrations and
-- removals call for, whatever the others do in between.
use mx_chain_notifier_go.Base.{
  ℕ, List, [], ◌∷◌, none, some, ◌≡◌, ◌≢◌, refl, sym, ◌∙◌, ap, arith, inl, inr, ◌==◌, ==_iff,
  Bool-cases, if◌then◌else◌, lookup, lookup-insert, nat_eq, keep, Option-cases,
}
use mx_chain_notifier_go.Data.{Message, push, revert, finalized, txs, scrs}
use mx_chain_notifier_go.Dispatcher.Mapper.{
  subs_of, match_subscribe_event_lem, remove_subscriptions_lem,
}
use mx_chain_notifier_go.Hub.{
  EventDispatcher, CommonHub, subscribe, register_dispatcher, unregister_dispatcher,
}
use mx_chain_notifier_go.Hub.Subscribers.{IsValid, calls_to}
use mx_chain_notifier_go.Hub.Lifecycle.{
  Change, subscribes, registers, unregisters, apply_change, run, publish_message, lookup-unregister,
  owed, calls_to-publish_message, run-keeps_IsValid,
}

-- Two hubs that hold the same for a dispatcher.
pub record SameFor (i : ℕ) (h h' : CommonHub) : Type 0 where
  pub filter : h.filter ≡ h'.filter
  pub dispatcher : lookup i h.dispatchers ≡ lookup i h'.dispatchers
  pub subs : subs_of i h.subscription_mapper ≡ subs_of i h'.subscription_mapper

owed-SameFor : (i : ℕ) (m : Message) {h h' : CommonHub} → SameFor i h h' → owed i m h ≡ owed i m h'
owed-SameFor i (push b) s = rw (s.filter, s.dispatcher, s.subs)
owed-SameFor i (revert b) s = rw (s.dispatcher, s.subs)
owed-SameFor i (finalized b) s = rw (s.dispatcher, s.subs)
owed-SameFor i (txs b) s = rw (s.dispatcher, s.subs)
owed-SameFor i (scrs b) s = rw (s.dispatcher, s.subs)
owed-SameFor i (Message.events_with_order b) s = rw (s.dispatcher, s.subs)

-- The dispatcher that a change is about.
abbrev pub about : Change → ℕ
about (subscribes event) = event.dispatcher_id
about (registers d) = d.id
about (unregisters d) = d.id

-- The changes about a dispatcher, in their order.
abbrev pub own : ℕ → List Change → List Change
own i = keep (λ c. about c == i)

lookup-register :
    (d : EventDispatcher) (h : CommonHub) (i : ℕ)
    → lookup i (register_dispatcher d h).dispatchers ≡ (
        if d.id == i
        then (elim (lookup i h.dispatchers) [ none ↦ some d | some other ↦ some other ])
        else lookup i h.dispatchers)
unfolding register_dispatcher
lookup-register d h i = elim (Option-cases (lookup d.id h.dispatchers)) [
  | inl e ↦ ground (arith, e, ==_iff d.id i, lookup-insert d.id i d h.dispatchers)
  | inr (c, e) ↦ ground (arith, e, ==_iff d.id i)
]

register_dispatcher-rest :
    (d : EventDispatcher) (h : CommonHub)
    → ((register_dispatcher d h).filter ≡ h.filter)
      × ((register_dispatcher d h).subscription_mapper ≡ h.subscription_mapper)
unfolding register_dispatcher
register_dispatcher-rest d h = elim (Option-cases (lookup d.id h.dispatchers)) [
  | inl e ↦ (ground (arith, e), ground (arith, e))
  | inr (c, e) ↦ (ground (arith, e), ground (arith, e))
]

apply_change-other :
    (i : ℕ) (c : Change) (h : CommonHub) → about c ≢ i → SameFor i (apply_change c h) h
unfolding apply_change
apply_change-other i (subscribes event) h other = record {
  filter = unfold subscribe in refl;
  dispatcher = unfold subscribe in refl;
  subs =
      unfold subscribe in
      ground (arith, other, match_subscribe_event_lem event h.subscription_mapper i);
}
apply_change-other i (registers d) h other =
    let (filter, mapper) = register_dispatcher-rest d h in
    record {
      filter = filter;
      dispatcher = ground (arith, other, lookup-register d h i);
      subs = ap (subs_of i) mapper;
    }
apply_change-other i (unregisters d) h other = record {
  filter = unfold unregister_dispatcher in refl;
  dispatcher = ground (arith, other, lookup-unregister d h i);
  subs =
      unfold unregister_dispatcher in
      ground (arith, other, remove_subscriptions_lem d.id h.subscription_mapper i);
}

apply_change-same :
    (i : ℕ) (c : Change) {h h' : CommonHub}
    → SameFor i h h'
    → SameFor i (apply_change c h) (apply_change c h')
unfolding apply_change
apply_change-same i (subscribes event) {h} {h'} s = record {
  filter = unfold subscribe in s.filter;
  dispatcher = unfold subscribe in s.dispatcher;
  subs =
      unfold subscribe in
      rw (
        match_subscribe_event_lem event h.subscription_mapper i,
        match_subscribe_event_lem event h'.subscription_mapper i,
        s.subs,
      );
}
apply_change-same i (registers d) {h} {h'} s =
    let (filter, mapper) = register_dispatcher-rest d h in
    let (filter', mapper') = register_dispatcher-rest d h' in
    record {
      filter = filter ∙ s.filter ∙ sym filter';
      dispatcher = rw (lookup-register d h i, lookup-register d h' i, s.dispatcher);
      subs = ap (subs_of i) mapper ∙ s.subs ∙ sym (ap (subs_of i) mapper');
    }
apply_change-same i (unregisters d) {h} {h'} s = record {
  filter = unfold unregister_dispatcher in s.filter;
  dispatcher = rw (lookup-unregister d h i, lookup-unregister d h' i, s.dispatcher);
  subs =
      unfold unregister_dispatcher in
      rw (
        remove_subscriptions_lem d.id h.subscription_mapper i,
        remove_subscriptions_lem d.id h'.subscription_mapper i,
        s.subs,
      );
}

SameFor-trans : (i : ℕ) {h h' h'' : CommonHub} → SameFor i h h' → SameFor i h' h'' → SameFor i h h''
SameFor-trans i s t = record {
  filter = s.filter ∙ t.filter;
  dispatcher = s.dispatcher ∙ t.dispatcher;
  subs = s.subs ∙ t.subs;
}

run-SameFor :
    (i : ℕ) (cs : List Change) {h h' : CommonHub}
    → SameFor i h h'
    → SameFor i (run cs h) (run (own i cs) h')
unfolding run
run-SameFor i [] s = s
run-SameFor i (c ∷ cs) {h} {h'} s = elim (Bool-cases (about c == i)) [
  | inl mine ↦ rw mine (run-SameFor i cs (apply_change-same i c s))
  | inr other ↦ rw other (
      run-SameFor i cs
        (SameFor-trans i (apply_change-other i c h (ground (arith, other, ==_iff (about c) i))) s))
]

-- Whatever subscriptions, registrations and removals of dispatchers come in whatever order, each
-- publication makes the same calls on a dispatcher as if only the changes about its id had been made.
pub run-own :
    (i : ℕ) (cs : List Change) (m : Message) (h : CommonHub)
    → IsValid h
    → calls_to i (publish_message m (run cs h)) ≡ calls_to i (publish_message m (run (own i cs) h))
run-own i cs m h v =
    let same : SameFor i h h = record { filter = refl; dispatcher = refl; subs = refl } in
    calls_to-publish_message i m (run cs h) (run-keeps_IsValid cs h v)
    ∙ owed-SameFor i m (run-SameFor i cs same)
    ∙ sym (calls_to-publish_message i m (run (own i cs) h) (run-keeps_IsValid (own i cs) h v))
