-- ===== src/WebSocket/Sessions.antt =====
-- dispatcher/ws and dispatcher/hub/commonHub.go: what a websocket client can bring about.
use mx_chain_notifier_go.Base.{
  ℕ, ◌≡◌, ◌≢◌, refl, sym, ◌∙◌, ap, List, [], ◌∷◌, ◌++◌, Bytes, arith, none, some, Option, ◌==◌,
  keep-append, nat_eq,
}
use mx_chain_notifier_go.Errors.{GoError}
use mx_chain_notifier_go.Data.{Message, SubscribeEvent}
use mx_chain_notifier_go.Hub.{CommonHub, subscribe}
use mx_chain_notifier_go.Hub.Subscribers.{IsValid, calls_to}
use mx_chain_notifier_go.Hub.Lifecycle.{
  Change, subscribes, registers, unregisters, apply_change, run, publish_message,
}
use mx_chain_notifier_go.Hub.Isolation.{about, own, run-own}
use mx_chain_notifier_go.WebSocket.{
  WebsocketDispatcher, try_send_subscribe_event, cleaned, client_messages, as_event_dispatcher,
}

module _ (wd : WebsocketDispatcher) where
  -- The change that an unmarshalled message makes, if there was no error.
  abbrev asked_by : SubscribeEvent × Option GoError → List Change
  asked_by (event, none) = subscribes (record event { dispatcher_id = wd.id }) ∷ []
  asked_by (event, some e) = []

  abbrev change_of : Bytes → List Change
  change_of msg = asked_by (wd.marshaller.unmarshal_subscribe (cleaned msg))

  changes_of : List Bytes → List Change
  changes_of [] = []
  changes_of (msg ∷ msgs) = change_of msg ++ changes_of msgs

  run-append : (cs cs' : List Change) (h : CommonHub) → run (cs ++ cs') h ≡ run cs' (run cs h)
  unfolding run
  run-append [] cs' h = refl
  run-append (c ∷ cs) cs' h = run-append cs cs' (apply_change c h)

  one-run :
      (msg : Bytes) (h : CommonHub)
      → try_send_subscribe_event wd (cleaned msg) h ≡ run (change_of msg) h
  unfolding run apply_change try_send_subscribe_event
  one-run msg h = by_answer (wd.marshaller.unmarshal_subscribe (cleaned msg))
    where
      by_answer :
          (x : SubscribeEvent × Option GoError)
          → elim x.1 [ some error ↦ h | none ↦ subscribe (record x.0 { dispatcher_id = wd.id }) h ]
            ≡ run (asked_by x) h
      by_answer (event, none) = unfold run apply_change in refl
      by_answer (event, some e) = unfold run in refl

  client_messages-run :
      (msgs : List Bytes) (h : CommonHub) → client_messages wd msgs h ≡ run (changes_of msgs) h
  unfolding client_messages changes_of run
  client_messages-run [] h = refl
  client_messages-run (msg ∷ msgs) h =
      client_messages-run msgs _
      ∙ ap (run (changes_of msgs)) (one-run msg h)
      ∙ sym (run-append (change_of msg) (changes_of msgs) h)

  asked_by-own : (j : ℕ) (x : SubscribeEvent × Option GoError) → wd.id ≢ j → own j (asked_by x) ≡ []
  asked_by-own j (event, none) other = ground (arith, other)
  asked_by-own j (event, some e) other = refl

  changes_of-own : (j : ℕ) (msgs : List Bytes) → wd.id ≢ j → own j (changes_of msgs) ≡ []
  unfolding changes_of
  changes_of-own j [] other = refl
  changes_of-own j (msg ∷ msgs) other =
      keep-append (λ c. about c == j) (change_of msg) (changes_of msgs)
      ∙ rw (asked_by-own j (wd.marshaller.unmarshal_subscribe (cleaned msg)) other)
          (changes_of-own j msgs other)

  -- Whatever a client sends over its websocket, and whichever dispatcher its messages name, no
  -- other dispatcher is called more, less or otherwise by any publication.
  pub client_messages-others :
      (j : ℕ) (msgs : List Bytes) (m : Message) (h : CommonHub)
      → wd.id ≢ j
      → IsValid h
      → calls_to j (publish_message m (client_messages wd msgs h))
        ≡ calls_to j (publish_message m h)
  unfolding run
  client_messages-others j msgs m h other v = rw (client_messages-run msgs h) (
      run-own j (changes_of msgs) m h v
      ∙ ap (λ cs. calls_to j (publish_message m (run cs h))) (changes_of-own j msgs other))

  -- The changes of a session whose client sends some messages.
  abbrev session : List Bytes → List Change
  session msgs =
      registers (as_event_dispatcher wd) ∷ changes_of msgs
      ++ unregisters (as_event_dispatcher wd) ∷ []
