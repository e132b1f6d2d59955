-- ===== src/Process/EventsHandler.antt =====
-- process/eventsHandler.go: each block, revert and finalization is checked against the lock service
-- and handed to the publisher.
pub mod Retry
pub mod Outcomes
pub mod LockLaws
pub mod Serve
pub mod Limit
pub mod AtMostOnce
pub mod Duplicates
pub mod Keys
pub mod Cluster
use mx_chain_notifier_go.Base.{
  ℕ, zero, suc, ◌+◌, ◌-◌, List, [], ◌∷◌, ◌++◌, Bool, true, false, Option, none, some, GoString,
  codes, str_eq, if◌then◌else◌, encode_to_string,
}
use mx_chain_notifier_go.Errors.{
  Result, ok, err, panicked, ◌>>=◌, GoError, received_empty_events, require, nil_lock_service,
  nil_publisher_service, nil_status_metrics_handler, nil_events_interceptor,
}
use mx_chain_notifier_go.Common.{
  push_logs_and_events, block_events, revert_block_events, finalized_block_events, block_txs,
  block_scrs,
}
use mx_chain_notifier_go.Data.{
  BlockEvents, RevertBlock, FinalizedBlock, BlockTxs, BlockScrs, BlockEventsWithOrder,
  InterceptorBlockData, ArgsSaveBlockData,
}
use mx_chain_notifier_go.Metrics.{StatusMetrics, add_request}
use mx_chain_notifier_go.Process.LockKeys.{get_prefix_locker_key, get_rabbit_op_id, get_redis_op_id}
use mx_chain_notifier_go.Process.Interface.{LockService, Publisher}

-- The milliseconds of `time.Sleep`.
abbrev pub set_retry_duration : ℕ
set_retry_duration = 500

abbrev pub reconnect_retry_duration : ℕ
reconnect_retry_duration = 2000

pub record EventsHandler (R P : Type 0) : Type 0 where
  pub locker : LockService R
  pub publisher : Publisher P
  pub events_interceptor : Option ArgsSaveBlockData → Result InterceptorBlockData
  pub check_duplicates : Bool

-- The state that a call works on: what lies behind the lock service and the publisher, the metrics,
-- how often the clock was read, and the milliseconds slept.
pub record World (R P : Type 0) : Type 0 where
  pub lock : R
  pub outbox : P
  pub metrics : StatusMetrics
  pub readings : ℕ
  pub slept : ℕ

-- `NewEventsHandler` with its `checkArgs`.
unfoldable pub new_events_handler :
    {R P : Type 0}
    → Option (LockService R)
    → Option (Publisher P)
    → Option StatusMetrics
    → Option (Option ArgsSaveBlockData → Result InterceptorBlockData)
    → Bool
    → Result (EventsHandler R P)
new_events_handler locker publisher metrics interceptor check_duplicates = do
  l ← require locker nil_lock_service
  p ← require publisher nil_publisher_service
  m ← require metrics nil_status_metrics_handler
  i ← require interceptor nil_events_interceptor
  ok (record {
    locker = l;
    publisher = p;
    events_interceptor = i;
    check_duplicates = check_duplicates;
  })

-- The struct literals of `HandleSaveBlockEvents`.
abbrev pub push_of : InterceptorBlockData → BlockEvents
push_of d = record {
  hash = d.hash;
  shard_id = d.header.shard_id;
  time_stamp = d.header.time_stamp;
  events = d.log_events;
}

abbrev pub txs_of : InterceptorBlockData → BlockTxs
txs_of d = record { hash = d.hash; txs = d.txs }

abbrev pub scrs_of : InterceptorBlockData → BlockScrs
scrs_of d = record { hash = d.hash; scrs = d.scrs }

abbrev pub with_order_of : InterceptorBlockData → BlockEventsWithOrder
with_order_of d = record {
  hash = d.hash;
  shard_id = d.header.shard_id;
  time_stamp = d.header.time_stamp;
  txs = d.txs_with_order;
  scrs = d.scrs_with_order;
  events = d.log_events;
}

-- `clock` gives the reading of Go's monotonic clock each time it is read.
module _ {R P : Type 0} (clock : ℕ → ℕ) (eh : EventsHandler R P) where
  -- `t := time.Now()`
  abbrev now : World R P → ℕ × World R P
  now w = (clock w.readings, record w { readings = suc w.readings })

  -- `eh.metricsHandler.AddRequest(op, time.Since(t))`
  abbrev add_timed : GoString → ℕ → World R P → World R P
  add_timed op t w = record w {
    metrics = add_request op (clock w.readings - t) w.metrics;
    readings = suc w.readings;
  }

  -- What every handler does with the publisher: read the clock, hand over, count.
  unfoldable pub timed_broadcast : GoString → (P → P) → World R P → World R P
  timed_broadcast id send w =
      let (t, w') = now w in
      add_timed (get_rabbit_op_id id) t (record w' { outbox = send w'.outbox })

  abbrev sleep : ℕ → World R P → World R P
  sleep ms w = record w { slept = w.slept + ms }

  -- `eh.locker.IsEventProcessed`, between its two readings of the clock.
  unfoldable pub ask_locker : GoString → GoString → World R P → (Bool × Option GoError) × World R P
  ask_locker id key w =
      let (t, w') = now w in
      let (answer, r) = eh.locker.is_event_processed key w'.lock in
      (answer, add_timed (get_redis_op_id id) t (record w' { lock = r }))

  -- The wait after a failed attempt.
  unfoldable pub wait_for_locker : World R P → World R P
  wait_for_locker w =
      let (connected, r) = eh.locker.has_connection w.lock in
      sleep (if connected then set_retry_duration else reconnect_retry_duration)
        (record w { lock = r })

  -- The loop of `tryCheckProcessedWithRetry`, with fuel; `none` means that it is still trying.
  unfoldable pub retry_loop : ℕ → GoString → GoString → World R P → Option (Bool × World R P)
  unfolding ask_locker wait_for_locker
  retry_loop zero id key w = none
  retry_loop (suc fuel) id key w =
      let ((set_successful, e), w') = ask_locker id key w in
      elim e [
        | none ↦ some (set_successful, w')
        | some error ↦ retry_loop fuel id key (wait_for_locker w')
      ]

  unfoldable pub try_check_processed_with_retry :
      ℕ → GoString → GoString → World R P → Option (Bool × World R P)
  unfolding retry_loop
  try_check_processed_with_retry fuel id block_hash w =
      retry_loop fuel id (get_prefix_locker_key id ++ block_hash) w

  -- `if eh.checkDuplicates { should = eh.tryCheckProcessedWithRetry(id, hash) }`
  unfoldable pub should_process : ℕ → GoString → GoString → World R P → Option (Bool × World R P)
  unfolding try_check_processed_with_retry
  should_process fuel id block_hash w =
      if eh.check_duplicates
      then try_check_processed_with_retry fuel id block_hash w
      else some (true, w)

  unfoldable pub handle_push_events : BlockEvents → World R P → Result (World R P)
  handle_push_events events w =
      if str_eq events.hash []
      then err received_empty_events
      else ok (timed_broadcast push_logs_and_events (eh.publisher.broadcast events) w)

  unfoldable pub handle_block_txs : BlockTxs → World R P → World R P
  handle_block_txs b w =
      if str_eq b.hash [] then w else timed_broadcast block_txs (eh.publisher.broadcast_txs b) w

  unfoldable pub handle_block_scrs : BlockScrs → World R P → World R P
  handle_block_scrs b w =
      if str_eq b.hash [] then w else timed_broadcast block_scrs (eh.publisher.broadcast_scrs b) w

  unfoldable pub handle_block_events_with_order : BlockEventsWithOrder → World R P → World R P
  handle_block_events_with_order b w =
      if str_eq b.hash []
      then w
      else timed_broadcast block_events (eh.publisher.broadcast_block_events_with_order b) w

  -- `HandleSaveBlockEvents` from the interceptor's result on.
  unfoldable pub publish_block : InterceptorBlockData → World R P → Result (Unit {0}) × World R P
  publish_block d w = elim (handle_push_events (push_of d) w) [
    | err e ↦ (err e, w)
    | panicked ↦ (panicked, w)
    | ok w' ↦ (
      ok tt,
      handle_block_events_with_order (with_order_of d)
          (handle_block_scrs (scrs_of d) (handle_block_txs (txs_of d) w')),
    )
  ]

  unfoldable pub process_block : ArgsSaveBlockData → World R P → Result (Unit {0}) × World R P
  unfolding publish_block
  process_block all_events w = elim (eh.events_interceptor (some all_events)) [
    | err e ↦ (err e, w)
    | panicked ↦ (panicked, w)
    | ok d ↦ publish_block d w
  ]

  unfoldable pub handle_save_block_events :
      ℕ → ArgsSaveBlockData → World R P → Option (Result (Unit {0}) × World R P)
  unfolding process_block
  handle_save_block_events fuel all_events w =
      elim (should_process fuel push_logs_and_events (encode_to_string all_events.header_hash) w) [
        | none ↦ none
        | some (should, w') ↦ some (if should then process_block all_events w' else (ok tt, w'))
      ]

  unfoldable pub handle_revert_events : ℕ → RevertBlock → World R P → Option (World R P)
  handle_revert_events fuel b w =
      if str_eq b.hash [] then some w else elim (should_process fuel revert_block_events b.hash w) [
        | none ↦ none
        | some (should, w') ↦ some (
            if should
            then timed_broadcast revert_block_events (eh.publisher.broadcast_revert b) w'
            else w')
      ]

  unfoldable pub handle_finalized_events : ℕ → FinalizedBlock → World R P → Option (World R P)
  handle_finalized_events fuel b w =
      if str_eq b.hash []
      then some w
      else elim (should_process fuel finalized_block_events b.hash w) [
        | none ↦ none
        | some (should, w') ↦ some (
            if should
            then timed_broadcast finalized_block_events (eh.publisher.broadcast_finalized b) w'
            else w')
      ]
