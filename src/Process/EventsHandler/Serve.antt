-- ===== src/Process/EventsHandler/Serve.antt =====
-- process/eventsHandler.go: runs of the handler over a list of requests, with the messages recorded.
use mx_chain_notifier_go.Base.{
  ℕ, Bool, false, Option, none, some, GoString, List, [], ◌∷◌, ◌++◌, str_eq, length, keep,
}
use mx_chain_notifier_go.Common.{push_logs_and_events, revert_block_events, finalized_block_events}
use mx_chain_notifier_go.Data.{
  RevertBlock, FinalizedBlock, ArgsSaveBlockData, Message, push, revert, finalized, txs, scrs,
  events_with_order,
}
use mx_chain_notifier_go.Process.LockKeys.{get_prefix_locker_key}
use mx_chain_notifier_go.Process.Interface.{Publisher}
use mx_chain_notifier_go.Process.EventsHandler.{
  EventsHandler, World, handle_save_block_events, handle_revert_events, handle_finalized_events,
}

-- A publisher that records what it is handed, newest first.
abbrev pub recorder : Publisher (List Message)
recorder = record {
  broadcast = λ b o. push b ∷ o;
  broadcast_revert = λ b o. revert b ∷ o;
  broadcast_finalized = λ b o. finalized b ∷ o;
  broadcast_txs = λ b o. txs b ∷ o;
  broadcast_scrs = λ b o. scrs b ∷ o;
  broadcast_block_events_with_order = λ b o. events_with_order b ∷ o;
}

-- The key under which a message was checked, for the three kinds that are.
unfoldable pub has_key : GoString → Message → Bool
has_key k (push b) = str_eq (get_prefix_locker_key push_logs_and_events ++ b.hash) k
has_key k (revert b) = str_eq (get_prefix_locker_key revert_block_events ++ b.hash) k
has_key k (finalized b) = str_eq (get_prefix_locker_key finalized_block_events ++ b.hash) k
has_key k _ = false

-- How many pushes, reverts and finalizations were sent under a key.
abbrev pub sent : GoString → List Message → ℕ
sent k o = length (keep (has_key k) o)

pub data Request : Type 0 where
  save : ArgsSaveBlockData → Request
  reverts : RevertBlock → Request
  finalizes : FinalizedBlock → Request

module _ {R : Type 0} (clock : ℕ → ℕ) (eh : EventsHandler R (List Message)) where
  -- One request of the observer, whatever the handler returns for it.
  unfoldable pub serve : ℕ → Request → World R (List Message) → Option (World R (List Message))
  serve fuel (save args) w = elim (handle_save_block_events clock eh fuel args w) [
    | none ↦ none
    | some (result, w') ↦ some w'
  ]
  serve fuel (reverts b) w = handle_revert_events clock eh fuel b w
  serve fuel (finalizes b) w = handle_finalized_events clock eh fuel b w

  unfoldable pub serve_all :
      ℕ → List Request → World R (List Message) → Option (World R (List Message))
  serve_all fuel [] w = some w
  serve_all fuel (q ∷ qs) w = elim (serve fuel q w) [ none ↦ none | some w' ↦ serve_all fuel qs w' ]
