-- ===== src/Process/EventsHandler/Outcomes.antt =====
-- process/eventsHandler.go: what each handler returns and hands to the publisher, on every branch.
use mx_chain_notifier_go.Base.{
  ℕ, ◌<◌, ◌≡◌, ◌≢◌, refl, sym, subst, Bool, true, false, some, GoString, [], ◌++◌, arith,
  if◌then◌else◌, str_eq, str_eq_iff, encode_to_string,
}
use mx_chain_notifier_go.Errors.{Result, ok, err, panicked, received_empty_events}
use mx_chain_notifier_go.Common.{push_logs_and_events, finalized_block_events}
use mx_chain_notifier_go.Data.{RevertBlock, FinalizedBlock, InterceptorBlockData, ArgsSaveBlockData}
use mx_chain_notifier_go.Process.LockKeys.{get_prefix_locker_key}
use mx_chain_notifier_go.Process.Interface.{Publisher}
use mx_chain_notifier_go.Process.EventsHandler.{
  EventsHandler, World, timed_broadcast, push_of, txs_of, scrs_of, with_order_of, should_process,
  handle_push_events, handle_block_txs, handle_block_scrs, handle_block_events_with_order,
  publish_block, process_block, handle_save_block_events, handle_revert_events,
  handle_finalized_events,
}
use mx_chain_notifier_go.Process.EventsHandler.Retry.{
  Answers, try_check_processed_with_retry-Answers,
}

-- The four messages of a block, in their order.
abbrev pub sends : {P : Type 0} → Publisher P → InterceptorBlockData → P → P
sends p d o =
    p.broadcast_block_events_with_order (with_order_of d)
      (p.broadcast_scrs (scrs_of d) (p.broadcast_txs (txs_of d) (p.broadcast (push_of d) o)))

-- What becomes of a block that is to be processed: the value returned, and the publisher.
abbrev pub block_outcome :
    {P : Type 0} → Publisher P → Result InterceptorBlockData → P → Result (Unit {0}) × P
block_outcome p (err e) o = (err e, o)
block_outcome p panicked o = (panicked, o)
block_outcome p (ok d) o =
    if str_eq d.hash [] then (err received_empty_events, o) else (ok tt, sends p d o)

module _ {R P : Type 0} (clock : ℕ → ℕ) (eh : EventsHandler R P) where
  pub process_block-block_outcome :
      (args : ArgsSaveBlockData) (w : World R P)
      → let (result, w') = process_block clock eh args w in
        ((result, w'.outbox)
          ≡ block_outcome eh.publisher (eh.events_interceptor (some args)) w.outbox)
        × (w'.lock ≡ w.lock)
  unfolding process_block publish_block handle_push_events handle_block_txs handle_block_scrs
      handle_block_events_with_order timed_broadcast
  process_block-block_outcome args w = (ground arith, ground arith)

-- `Verdict eh key r n b r'`: whether the event with a key is to be processed, decided after `n`
-- failures of the lock service, which goes from state `r` to `r'`. Without the check for duplicates
-- every event is, and the lock service is not asked.
pub data Verdict {R P : Type 0} (eh : EventsHandler R P) (key : GoString)
    : R → ℕ → Bool → R → Type 0 where
  unchecked : {r : R} → eh.check_duplicates ≡ false → Verdict eh key r 0 true r
  checked :
      {r r' : R} {n ms : ℕ} {b : Bool}
      → eh.check_duplicates ≡ true
      → Answers eh.locker key r n ms b r'
      → Verdict eh key r n b r'

module _ {R P : Type 0} (clock : ℕ → ℕ) (eh : EventsHandler R P) where
  should_process-Verdict :
      (fuel : ℕ) (id block_hash : GoString) (w : World R P) (r : R) {n : ℕ} {b : Bool} {r' : R}
      → w.lock ≡ r
      → Verdict eh (get_prefix_locker_key id ++ block_hash) r n b r'
      → n < fuel
      → (w' : World R P) × (should_process clock eh fuel id block_hash w ≡ some (b, w'))
        × (w'.lock ≡ r')
        × (w'.outbox ≡ w.outbox)
  unfolding should_process
  should_process-Verdict fuel id block_hash w r same (unchecked off) h =
      (w, ground (arith, off), same, refl)
  should_process-Verdict fuel id block_hash w r same
        (checked {r' = r'} {n = n} {ms = ms} {b = b} on a) h =
      let (w', found, ended) =
        try_check_processed_with_retry-Answers clock eh fuel id block_hash w {n = n} {ms = ms}
          {b = b}
          (subst (λ s. Answers eh.locker (get_prefix_locker_key id ++ block_hash) s n ms b r')
            (sym same) a)
          h in
      (w', ground (arith, on, found), ended.lock, ended.outbox)

  pub handle_save_block_events_lem :
      (fuel : ℕ) (args : ArgsSaveBlockData) (w : World R P) {n : ℕ} {b : Bool} {r' : R}
      → Verdict eh (encode_to_string args.header_hash) w.lock n b r'
      → n < fuel
      → (result : Result (Unit {0})) × (w' : World R P) × (handle_save_block_events clock eh fuel
            args w
          ≡ some (result, w'))
        × ((result, w'.outbox) ≡ (
            if b
            then block_outcome eh.publisher (eh.events_interceptor (some args)) w.outbox
            else (ok tt, w.outbox)))
        × (w'.lock ≡ r')
  unfolding handle_save_block_events get_prefix_locker_key str_eq
  handle_save_block_events_lem fuel args w {b = b} v h =
      let (w1, found, lock, outbox) =
        should_process-Verdict fuel push_logs_and_events (encode_to_string args.header_hash) w
          w.lock refl v h in
      let (r, w2) = process_block clock eh args w1 in
      (
        if b then r else ok tt,
        if b then w2 else w1,
        ground (arith, found),
        ground (arith, process_block-block_outcome clock eh args w1, outbox),
        ground (arith, process_block-block_outcome clock eh args w1, lock),
      )

  -- With fuel above the number of failures, `HandleFinalizedEvents` of a block with a hash ends, and
  -- hands the finalization to the publisher exactly when it is to be processed.
  handle_finalized_events_lem :
      (fuel : ℕ) (block : FinalizedBlock) (w : World R P) {n : ℕ} {b : Bool} {r' : R}
      → block.hash ≢ []
      → Verdict eh (get_prefix_locker_key finalized_block_events ++ block.hash) w.lock n b r'
      → n < fuel
      → (w' : World R P) × (handle_finalized_events clock eh fuel block w ≡ some w')
        × (w'.outbox ≡ (if b then eh.publisher.broadcast_finalized block w.outbox else w.outbox))
        × (w'.lock ≡ r')
  unfolding handle_finalized_events timed_broadcast
  handle_finalized_events_lem fuel block w {b = b} ne v h =
      let (w1, found, lock, outbox) =
        should_process-Verdict fuel finalized_block_events block.hash w w.lock refl v h in
      let sent : World R P =
        timed_broadcast clock eh finalized_block_events (eh.publisher.broadcast_finalized block)
          w1 in
      (
        if b then sent else w1,
        ground (arith, found, str_eq_iff block.hash []),
        ground (arith, outbox),
        ground (arith, lock),
      )

  -- A revert or a finalization without a hash does nothing: no message, no question to the lock
  -- service, no metric.
  handle_empty_hash :
      (fuel : ℕ) (r : RevertBlock) (f : FinalizedBlock) (w : World R P)
      → r.hash ≡ []
      → f.hash ≡ []
      → (handle_revert_events clock eh fuel r w ≡ some w)
        × (handle_finalized_events clock eh fuel f w ≡ some w)
  unfolding handle_revert_events handle_finalized_events
  handle_empty_hash fuel r f w e e' =
      (ground (arith, str_eq_iff r.hash []), ground (arith, str_eq_iff f.hash []))
