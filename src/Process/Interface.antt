-- ===== src/Process/Interface.antt =====
-- process/interface.go: what the events handler needs of a lock service and a publisher.
use mx_chain_notifier_go.Base.{Bool, Option, GoString}
use mx_chain_notifier_go.Errors.{GoError}
use mx_chain_notifier_go.Data.{
  BlockEvents, RevertBlock, FinalizedBlock, BlockTxs, BlockScrs, BlockEventsWithOrder,
}

-- process.LockService, over what lies behind it.
pub record LockService (R : Type 0) : Type 0 where
  pub is_event_processed : GoString → R → (Bool × Option GoError) × R
  pub has_connection : R → Bool × R

-- process.Publisher, without `Run` and `Close`, which the handler does not call.
pub record Publisher (P : Type 0) : Type 0 where
  pub broadcast : BlockEvents → P → P
  pub broadcast_revert : RevertBlock → P → P
  pub broadcast_finalized : FinalizedBlock → P → P
  pub broadcast_txs : BlockTxs → P → P
  pub broadcast_scrs : BlockScrs → P → P
  pub broadcast_block_events_with_order : BlockEventsWithOrder → P → P
