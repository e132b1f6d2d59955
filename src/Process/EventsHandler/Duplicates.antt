-- ===== src/Process/EventsHandler/Duplicates.antt =====
-- process/eventsHandler.go: what the check for duplicates does to a second copy of a block, also
-- when the first one failed.
use mx_chain_notifier_go.Base.{
  ℕ, ◌≡◌, sym, subst, inl, inr, Bool, true, false, some, GoString, ◌++◌, arith, Option-cases,
  str_eq, encode_to_string,
}
use mx_chain_notifier_go.Errors.{GoError, Result, ok}
use mx_chain_notifier_go.Common.{push_logs_and_events}
use mx_chain_notifier_go.Data.{ArgsSaveBlockData}
use mx_chain_notifier_go.Process.LockKeys.{get_prefix_locker_key}
use mx_chain_notifier_go.Process.EventsHandler.{
  EventsHandler, World, should_process, handle_save_block_events,
}
use mx_chain_notifier_go.Process.EventsHandler.Retry.{try_check_processed_with_retry_sound}
use mx_chain_notifier_go.Process.EventsHandler.Outcomes.{process_block-block_outcome}
use mx_chain_notifier_go.Process.EventsHandler.LockLaws.{LockLaws, Answers-new, Answers-lost}

module _ {R P : Type 0} (clock : ℕ → ℕ) (eh : EventsHandler R P) (processed : R → GoString → Bool)
    (laws : LockLaws eh.locker processed) (on : eh.check_duplicates ≡ true) where
  -- After the handler is done with a key, the lock service knows it.
  should_process-known :
      (fuel : ℕ) (id hash : GoString) (w w1 : World R P) (b : Bool)
      → should_process clock eh fuel id hash w ≡ some (b, w1)
      → processed w1.lock (get_prefix_locker_key id ++ hash) ≡ true
  unfolding should_process
  should_process-known fuel id hash w w1 b e =
      let (n, ms, r', a, lt, ended) =
        try_check_processed_with_retry_sound clock eh fuel id hash w {b = b} {w' = w1}
          (ground (arith, on, e)) in
      subst (λ r. processed r (get_prefix_locker_key id ++ hash) ≡ true) (sym ended.lock)
        (Answers-new laws (get_prefix_locker_key id ++ hash) a).1

  -- A key that the lock service knows is not processed again.
  should_process-again :
      (fuel : ℕ) (id hash : GoString) (w w1 : World R P) (b : Bool)
      → should_process clock eh fuel id hash w ≡ some (b, w1)
      → processed w.lock (get_prefix_locker_key id ++ hash) ≡ true
      → (b ≡ false) × (w1.outbox ≡ w.outbox)
  unfolding should_process
  should_process-again fuel id hash w w1 b e known =
      let (n, ms, r', a, lt, ended) =
        try_check_processed_with_retry_sound clock eh fuel id hash w {b = b} {w' = w1}
          (ground (arith, on, e)) in
      let new = (Answers-new laws (get_prefix_locker_key id ++ hash) a).0 in
      (ground (arith, new, known), ended.outbox)

  known_block_ignored :
      (fuel : ℕ) (args : ArgsSaveBlockData) (w w' : World R P) (result : Result (Unit {0}))
      → processed w.lock
          (get_prefix_locker_key push_logs_and_events ++ encode_to_string args.header_hash)
        ≡ true
      → handle_save_block_events clock eh fuel args w ≡ some (result, w')
      → (result ≡ ok tt) × (w'.outbox ≡ w.outbox)
  unfolding handle_save_block_events
  known_block_ignored fuel args w w' result known e =
      elim (Option-cases
        (should_process clock eh fuel push_logs_and_events (encode_to_string args.header_hash) w)) [
          | inl still ↦ absurd (ground (arith, e, still))
          | inr ((go, w1), found) ↦
              let (no_go, same) =
                should_process-again fuel push_logs_and_events (encode_to_string args.header_hash) w
                  w1 go found known in
              (ground (arith, e, found, no_go), ground (arith, e, found, no_go, same))
        ]

  save-known :
      (fuel : ℕ) (args : ArgsSaveBlockData) (w w' : World R P) (result : Result (Unit {0}))
      → handle_save_block_events clock eh fuel args w ≡ some (result, w')
      → processed w'.lock
          (get_prefix_locker_key push_logs_and_events ++ encode_to_string args.header_hash)
        ≡ true
  unfolding handle_save_block_events
  save-known fuel args w w' result e =
      elim (Option-cases
        (should_process clock eh fuel push_logs_and_events (encode_to_string args.header_hash) w)) [
          | inl still ↦ absurd (ground (arith, e, still))
          | inr ((go, w1), found) ↦
              let known =
                should_process-known fuel push_logs_and_events (encode_to_string args.header_hash) w
                  w1 go found in
              let lock : w'.lock ≡ w1.lock =
                ground (arith, e, found, (process_block-block_outcome clock eh args w1).1) in
              rw lock known
        ]

  -- Once the handler has returned for a block, with success or with an error, a second block of the
  -- same header hash is answered with success and nothing is sent for it: a block whose first copy
  -- failed in the interceptor is never sent.
  pub handle_save_block_events-again :
      (fuel fuel' : ℕ) (args args' : ArgsSaveBlockData) (w w1 w2 : World R P)
      (result result' : Result (Unit {0}))
      → args'.header_hash ≡ args.header_hash
      → handle_save_block_events clock eh fuel args w ≡ some (result, w1)
      → handle_save_block_events clock eh fuel' args' w1 ≡ some (result', w2)
      → (result' ≡ ok tt) × (w2.outbox ≡ w1.outbox)
  handle_save_block_events-again fuel fuel' args args' w w1 w2 result result' same e e' =
      known_block_ignored fuel' args' w1 w2 result' (rw same (save-known fuel args w w1 result e))
        e'

  -- When the first question about a block fails although the lock service has recorded the key, as
  -- when the reply gets lost, the block is answered with success and nothing is sent for it.
  pub handle_save_block_events-lost_reply :
      (fuel : ℕ) (args : ArgsSaveBlockData) (w w' : World R P) (result : Result (Unit {0}))
      (b : Bool) (e : GoError) (lost : R)
      → eh.locker.is_event_processed (encode_to_string args.header_hash) w.lock
        ≡ ((b, some e), lost)
      → processed lost (encode_to_string args.header_hash) ≡ true
      → handle_save_block_events clock eh fuel args w ≡ some (result, w')
      → (result ≡ ok tt) × (w'.outbox ≡ w.outbox)
  unfolding handle_save_block_events should_process get_prefix_locker_key str_eq
  handle_save_block_events-lost_reply fuel args w w' result b e lost first known done =
      elim (Option-cases
        (should_process clock eh fuel push_logs_and_events (encode_to_string args.header_hash) w)) [
          | inl still ↦ absurd (ground (arith, done, still))
          | inr ((go, w1), found) ↦
              let (n, ms, r', a, lt, ended) =
                try_check_processed_with_retry_sound clock eh fuel push_logs_and_events
                  (encode_to_string args.header_hash) w {b = go} {w' = w1}
                  (ground (arith, on, found)) in
              let no_go =
                Answers-lost laws (encode_to_string args.header_hash) b e lost a first known in
              (ground (arith, done, found, no_go), ground (arith, done, found, no_go, ended.outbox))
        ]
