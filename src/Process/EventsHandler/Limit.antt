-- ===== src/Process/EventsHandler/Limit.antt =====
-- process/eventsHandler.go: what one question to the lock service, and what is sent after it, do to the
-- number of messages that were sent under each key.
use mx_chain_notifier_go.Base.{
  ℕ, ◌+◌, ◌≤◌, ◌≡◌, refl, sym, ◌∙◌, ap, subst, inl, inr, Bool, true, false, some, GoString, List,
  ◌++◌, arith, if◌then◌else◌, Bool-cases, str_eq, str_eq_iff, encode_to_string,
}
use mx_chain_notifier_go.Errors.{Result, ok, err, panicked}
use mx_chain_notifier_go.Common.{push_logs_and_events}
use mx_chain_notifier_go.Data.{InterceptorBlockData, ArgsSaveBlockData, Message}
use mx_chain_notifier_go.Process.LockKeys.{get_prefix_locker_key}
use mx_chain_notifier_go.Process.EventsHandler.{
  EventsHandler, World, should_process, timed_broadcast, process_block,
}
use mx_chain_notifier_go.Process.EventsHandler.Retry.{Answers, try_check_processed_with_retry_sound}
use mx_chain_notifier_go.Process.EventsHandler.Outcomes.{block_outcome, process_block-block_outcome}
use mx_chain_notifier_go.Process.EventsHandler.LockLaws.{LockLaws, Answers-keeps, Answers-new}
use mx_chain_notifier_go.Process.EventsHandler.Serve.{recorder, has_key, sent}

-- What may have been sent under a key: one message, once the lock service knows the key.
abbrev pub limit : {R : Type 0} → (R → GoString → Bool) → R → GoString → ℕ
limit processed r k = if processed r k then 1 else 0

module _ {R : Type 0} (clock : ℕ → ℕ) (eh : EventsHandler R (List Message))
    (processed : R → GoString → Bool) (laws : LockLaws eh.locker processed)
    (on : eh.check_duplicates ≡ true) (records : eh.publisher ≡ recorder)
    (names_block : (args : ArgsSaveBlockData) (d : InterceptorBlockData)
      → eh.events_interceptor (some args) ≡ ok d
      → d.hash ≡ encode_to_string args.header_hash) where
  -- An event sent under the key that was asked for, or not sent, keeps the limit.
  limit-kept :
      (key k : GoString) (r r' : R) (n ms : ℕ) (b : Bool) (o o' : List Message)
      → Answers eh.locker key r n ms b r'
      → (b ≡ false → o' ≡ o)
      → sent k o' ≤ sent k o + (if str_eq key k then 1 else 0)
      → sent k o ≤ limit processed r k
      → sent k o' ≤ limit processed r' k
  limit-kept key k r r' n ms b o o' a same more h = elim (Bool-cases (str_eq key k)) [
    | inr other ↦ ground (arith, other, Answers-keeps laws key k a)
    | inl hit ↦
        let here : key ≡ k = (str_eq_iff key k).0 hit in
        let (new, known) = Answers-new laws key a in
        let known_k : processed r' k ≡ true = subst (λ j. processed r' j ≡ true) here known in
        elim (Bool-cases b) [
          | inl yes_new ↦
              let new_k : processed r k ≡ false =
                subst (λ j. processed r j ≡ false) here (new yes_new) in
              ground (arith, hit, known_k, new_k)
          | inr old ↦
              let unsent : sent k o' ≡ sent k o = ap (sent k) (same old) in
              ground (arith, known_k, unsent)
        ]
  ]

  should_process-kept :
      (fuel : ℕ) (id hash k : GoString) (w w1 : World R (List Message)) (b : Bool)
      (o' : List Message)
      → should_process clock eh fuel id hash w ≡ some (b, w1)
      → (b ≡ false → o' ≡ w1.outbox)
      → sent k o'
        ≤ sent k w1.outbox + (if str_eq (get_prefix_locker_key id ++ hash) k then 1 else 0)
      → sent k w.outbox ≤ limit processed w.lock k
      → sent k o' ≤ limit processed w1.lock k
  unfolding should_process
  should_process-kept fuel id hash k w w1 b o' e same more h =
      let (n, ms, r', a, lt, ended) =
        try_check_processed_with_retry_sound clock eh fuel id hash w {b = b} {w' = w1}
          (ground (arith, on, e)) in
      subst (λ s. sent k o' ≤ limit processed s k) (sym ended.lock)
        (limit-kept (get_prefix_locker_key id ++ hash) k w.lock r' n ms b w.outbox o' a
          (λ old. same old ∙ ended.outbox)
          (subst
            (λ s.
              sent k o' ≤ sent k s + (if str_eq (get_prefix_locker_key id ++ hash) k then 1 else 0))
            ended.outbox more)
          h)

  sent-sends :
      (k : GoString) (args : ArgsSaveBlockData) (d : InterceptorBlockData) (o : List Message)
      → d.hash ≡ encode_to_string args.header_hash
      → sent k (block_outcome recorder (ok d) o).1
        ≤ sent k o
          + (if str_eq
                (get_prefix_locker_key push_logs_and_events ++ encode_to_string args.header_hash)
                k
              then 1
              else 0)
  unfolding has_key
  sent-sends k args d o e = rw (← e) (ground arith)

  sent-block_outcome :
      (k : GoString) (args : ArgsSaveBlockData) (o : List Message)
      → sent k (block_outcome eh.publisher (eh.events_interceptor (some args)) o).1
        ≤ sent k o
          + (if str_eq
                (get_prefix_locker_key push_logs_and_events ++ encode_to_string args.header_hash)
                k
              then 1
              else 0)
  sent-block_outcome k args o =
      rw records (helper (eh.events_interceptor (some args)) (names_block args))
    where
      helper :
          (res : Result InterceptorBlockData)
          → ((d : InterceptorBlockData) → res ≡ ok d → d.hash ≡ encode_to_string args.header_hash)
          → sent k (block_outcome recorder res o).1
            ≤ sent k o
              + (if str_eq
                    (get_prefix_locker_key push_logs_and_events
                      ++ encode_to_string args.header_hash)
                    k
                  then 1
                  else 0)
      helper (err e) h = omega arith
      helper panicked h = omega arith
      helper (ok d) h = sent-sends k args d o (h d refl)

  -- After the question to the lock service a message is sent or not.
  pub send-kept :
      (fuel : ℕ) (id hash k : GoString) (send : List Message → List Message) (go : Bool)
      (w w1 : World R (List Message))
      → should_process clock eh fuel id hash w ≡ some (go, w1)
      → sent k (send w1.outbox)
        ≤ sent k w1.outbox + (if str_eq (get_prefix_locker_key id ++ hash) k then 1 else 0)
      → sent k w.outbox ≤ limit processed w.lock k
      → let v = if go then timed_broadcast clock eh id send w1 else w1 in
        sent k v.outbox ≤ limit processed v.lock k
  unfolding timed_broadcast
  send-kept fuel id hash k send true w w1 found more h =
      should_process-kept fuel id hash k w w1 true (send w1.outbox) found (λ x. cc) more h
  send-kept fuel id hash k send false w w1 found more h =
      should_process-kept fuel id hash k w w1 false w1.outbox found (λ x. refl) (omega arith) h

  pub process-kept :
      (fuel : ℕ) (args : ArgsSaveBlockData) (k : GoString) (go : Bool)
      (w w1 : World R (List Message))
      → should_process clock eh fuel push_logs_and_events (encode_to_string args.header_hash) w
        ≡ some (go, w1)
      → sent k w.outbox ≤ limit processed w.lock k
      → let v = if go then (process_block clock eh args w1).1 else w1 in
        sent k v.outbox ≤ limit processed v.lock k
  process-kept fuel args k true w w1 found h =
      let (outcome, lock) = process_block-block_outcome clock eh args w1 in
      let o' : (process_block clock eh args w1).1.outbox
          ≡ (block_outcome eh.publisher (eh.events_interceptor (some args)) w1.outbox).1 =
        ap (λ x. x.1) outcome in
      rw lock (
        should_process-kept fuel push_logs_and_events (encode_to_string args.header_hash) k w w1
          true (process_block clock eh args w1).1.outbox found (λ x. cc)
          (rw o' (sent-block_outcome k args w1.outbox)) h)
  process-kept fuel args k false w w1 found h =
      should_process-kept fuel push_logs_and_events (encode_to_string args.header_hash) k w w1 false
        w1.outbox found (λ x. refl) (omega arith) h
