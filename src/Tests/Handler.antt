-- ===== src/Tests/Handler.antt =====
-- The events handler on the test server.
use mx_chain_notifier_go.Base.{
  ◌≤◌, ◌≡◌, refl, List, [], ◌∷◌, ◌++◌, Bool, true, false, Option, none, some, GoString, codes,
  arith, encode_to_string, str_eq, str_eq_refl,
}
use mx_chain_notifier_go.Common.{revert_block_events}
use mx_chain_notifier_go.Errors.{Result, ok, err, external, nil_transactions_pool}
use mx_chain_notifier_go.Process.EventsInterceptor.{process_block_events, extract_txs, extract_scrs}
use mx_chain_notifier_go.Data.{RevertBlock, FinalizedBlock, Message}
use mx_chain_notifier_go.Process.EventsInterceptor.Blocks.{process_block_events_hash}
use mx_chain_notifier_go.Process.LockKeys.{get_prefix_locker_key}
use mx_chain_notifier_go.Process.EventsHandler.{
  World, try_check_processed_with_retry, handle_save_block_events, handle_revert_events,
  should_process, handle_push_events, handle_block_txs, handle_block_scrs,
  handle_block_events_with_order, timed_broadcast,
}
use mx_chain_notifier_go.Process.EventsHandler.Retry.{
  Answers, answered, failed, Ended, try_check_processed_with_retry-Answers,
}
use mx_chain_notifier_go.Process.EventsHandler.Serve.{sent, save, reverts, serve, serve_all}
use mx_chain_notifier_go.Process.EventsHandler.AtMostOnce.{serve_all_at_most_once}
use mx_chain_notifier_go.Process.EventsHandler.Duplicates.{
  handle_save_block_events-again, handle_save_block_events-lost_reply,
}
use mx_chain_notifier_go.Process.EventsHandler.Keys.{Checked, checked_key-injective}
use mx_chain_notifier_go.Redis.{redlock_wrapper, new_redis_client_wrapper, is_connected_by_ping}
use mx_chain_notifier_go.Redis.LockLaws.{redlock_wrapper-LockLaws}
use mx_chain_notifier_go.Tests.Fixtures.{
  Server, has, server, server-SetNxLaws, converter, block, poolless_block, handler, start, clock,
}

abbrev block_key : GoString
block_key = codes "ab07"

pub two_failures :
    (key : GoString)
    → Answers handler.locker key start.lock 2 1000 true
        (record { outages = 0; lossy = false; keys = key ∷ [] })
unfolding redlock_wrapper new_redis_client_wrapper is_connected_by_ping str_eq
two_failures key =
    failed (external 1) true refl refl (failed (external 1) true refl refl (answered refl))

try_check_processed_with_retry-Answers_example :
    (w' : World Server (List Message)) × (try_check_processed_with_retry clock handler 3
        revert_block_events
        (codes "ff")
        start
      ≡ some (true, w'))
    × Ended clock handler start 2 1000
        (record {
          outages = 0;
          lossy = false;
          keys = (get_prefix_locker_key revert_block_events ++ codes "ff") ∷ [];
        })
        w'
try_check_processed_with_retry-Answers_example =
    try_check_processed_with_retry-Answers clock handler 3 revert_block_events (codes "ff") start
      (two_failures (get_prefix_locker_key revert_block_events ++ codes "ff")) (omega arith)

abbrev key_of_ff : GoString
key_of_ff = codes "revert_ff"

-- What a call that has returned gives.
abbrev world_of : Option (World Server (List Message)) → World Server (List Message)
world_of none = start
world_of (some w) = w

abbrev saved_world :
    Option (Result (Unit {0}) × World Server (List Message)) → World Server (List Message)
saved_world none = start
saved_world (some (r, w)) = w

abbrev checked_world : Option (Bool × World Server (List Message)) → World Server (List Message)
checked_world none = start
checked_world (some (b, w)) = w

pub after_ff : World Server (List Message)
after_ff =
    checked_world
      (try_check_processed_with_retry clock handler 3 revert_block_events (codes "ff") start)

pub ff_checked :
    try_check_processed_with_retry clock handler 3 revert_block_events (codes "ff") start
    ≡ some (true, after_ff)
unfolding after_ff try_check_processed_with_retry redlock_wrapper new_redis_client_wrapper
    is_connected_by_ping get_prefix_locker_key str_eq
ff_checked = refl

abbrev reverted : RevertBlock
reverted = record { hash = codes "ff"; nonce = 1; round = 2; epoch = 3 }

abbrev final : FinalizedBlock
final = record { hash = codes "ff" }

-- The block, a revert and a repetition of the block.
after_three : World Server (List Message)
after_three =
    world_of (serve_all clock handler 3 (save block ∷ reverts reverted ∷ save block ∷ []) start)

three_served :
    serve_all clock handler 3 (save block ∷ reverts reverted ∷ save block ∷ []) start
    ≡ some after_three
unfolding after_three serve_all serve handle_save_block_events handle_revert_events should_process
    process_block_events extract_txs extract_scrs handle_push_events handle_block_txs
    handle_block_scrs handle_block_events_with_order timed_broadcast redlock_wrapper
    new_redis_client_wrapper is_connected_by_ping get_prefix_locker_key str_eq encode_to_string
three_served = refl

serve_all_at_most_once_example : sent block_key after_three.outbox ≤ 1
serve_all_at_most_once_example =
    serve_all_at_most_once clock handler has
      (redlock_wrapper-LockLaws server has server-SetNxLaws 60_000_000_000) refl refl
      (process_block_events_hash converter) 3 (save block ∷ reverts reverted ∷ save block ∷ [])
      start after_three block_key refl three_served

abbrev no_error : Result (Unit {0})
no_error = ok tt

-- The block without its pool, and then the whole block.
after_failure : World Server (List Message)
after_failure = saved_world (handle_save_block_events clock handler 3 poolless_block start)

after_both : World Server (List Message)
after_both = saved_world (handle_save_block_events clock handler 1 block after_failure)

first_fails :
    handle_save_block_events clock handler 3 poolless_block start
    ≡ some (err nil_transactions_pool, after_failure)
unfolding after_failure handle_save_block_events should_process process_block_events redlock_wrapper
    new_redis_client_wrapper is_connected_by_ping get_prefix_locker_key str_eq encode_to_string
first_fails = refl

second_served :
    handle_save_block_events clock handler 1 block after_failure ≡ some (ok tt, after_both)
unfolding after_both after_failure handle_save_block_events should_process process_block_events
    redlock_wrapper new_redis_client_wrapper is_connected_by_ping get_prefix_locker_key str_eq
    encode_to_string
second_served = refl

handle_save_block_events-again_example :
    (no_error ≡ ok tt) × (after_both.outbox ≡ after_failure.outbox)
handle_save_block_events-again_example =
    handle_save_block_events-again clock handler has
      (redlock_wrapper-LockLaws server has server-SetNxLaws 60_000_000_000) refl 3 1 poolless_block
      block start after_failure after_both (err nil_transactions_pool) (ok tt) refl first_fails
      second_served

checked_key-injective_example : Checked.block (171 ∷ []) ≡ Checked.block (171 ∷ [])
checked_key-injective_example =
    checked_key-injective (Checked.block (171 ∷ [])) (Checked.block (171 ∷ [])) (omega arith)
      (omega arith) refl

-- The first attempt fails after the server has set the key.
abbrev lossy_start : World Server (List Message)
lossy_start = record start { lock = record { outages = 1; lossy = true; keys = [] } }

after_loss : World Server (List Message)
after_loss = saved_world (handle_save_block_events clock handler 2 block lossy_start)

loss_served : handle_save_block_events clock handler 2 block lossy_start ≡ some (ok tt, after_loss)
unfolding after_loss handle_save_block_events should_process process_block_events redlock_wrapper
    new_redis_client_wrapper is_connected_by_ping get_prefix_locker_key str_eq encode_to_string
loss_served = refl

handle_save_block_events-lost_reply_example :
    (no_error ≡ ok tt) × (after_loss.outbox ≡ lossy_start.outbox)
unfolding redlock_wrapper new_redis_client_wrapper str_eq
handle_save_block_events-lost_reply_example =
    handle_save_block_events-lost_reply clock handler has
      (redlock_wrapper-LockLaws server has server-SetNxLaws 60_000_000_000) refl 2 block lossy_start
      after_loss (ok tt) false (external 1)
      (record { outages = 0; lossy = true; keys = encode_to_string block.header_hash ∷ [] }) refl
      (ground (arith, str_eq_refl (encode_to_string block.header_hash))) loss_served
