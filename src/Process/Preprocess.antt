-- ===== src/Process/Preprocess.antt =====
-- process/preprocess: the payloads of the two versions, decoded and handed to the facade.
pub mod VersionZero
pub mod VersionOne
pub mod Blocks
use mx_chain_notifier_go.Base.{ℕ, List, Option, none, some, GoString, Bytes}
use mx_chain_notifier_go.Errors.{
  Result, ok, err, panicked, ◌>>=◌, require, nil_marshaller, nil_facade_handler,
}
use mx_chain_notifier_go.Data.{
  Ref, Header, ArgsSaveBlockData, RevertBlock, FinalizedBlock, TransactionPool, OutportBlockDataOld,
}

-- process.EventsFacadeHandler, over the state behind it. `none` means that the call has not returned,
-- as it waits for the lock service.
pub record EventsFacade (W : Type 0) : Type 0 where
  pub handle_push_events : ArgsSaveBlockData → W → Option (Result (Unit {0}) × W)
  pub handle_revert_events : RevertBlock → W → Option W
  pub handle_finalized_events : FinalizedBlock → W → Option W

-- outport.BlockData, outport.OutportBlock and outport.FinalizedBlock, the fields that are read.
pub record OutportBlockData : Type 0 where
  pub header_type : GoString
  pub header_bytes : Bytes
  pub header_hash : Bytes
  pub body : Option Ref

pub record OutportBlock : Type 0 where
  pub block_data : Option OutportBlockData
  pub transaction_pool : Option TransactionPool
  pub header_gas_consumption : Option Ref
  pub signers_indexes : List ℕ
  pub notarized_headers_hashes : List GoString
  pub altered_accounts : List (GoString × Option Ref)
  pub number_of_shards : ℕ

pub record OutportFinalizedBlock : Type 0 where
  pub header_hash : Bytes

-- marshal.Marshalizer and encoding/json at the types that they are called at, and
-- block.GetHeaderFromBytes with the creators of block.NewEmptyBlockCreatorsContainer.
pub record Marshaller : Type 0 where
  pub unmarshal_block_data_old : Bytes → Result OutportBlockDataOld
  pub unmarshal_header_type : Bytes → Result GoString
  pub unmarshal_revert_block : Bytes → Result RevertBlock
  pub unmarshal_finalized_block : Bytes → Result FinalizedBlock
  pub unmarshal_outport_block : Bytes → Result OutportBlock
  pub unmarshal_block_data : Bytes → Result OutportBlockData
  pub unmarshal_outport_finalized_block : Bytes → Result OutportFinalizedBlock
  pub creator : GoString → Result Ref
  pub header_from_bytes : Ref → Bytes → Result Header

-- `getHeaderFromBytes`
unfoldable pub get_header_from_bytes : Marshaller → GoString → Bytes → Result Header
get_header_from_bytes m header_type header_bytes = do
  creator ← m.creator header_type
  m.header_from_bytes creator header_bytes

-- baseEventsPreProcessor
pub record BaseEventsPreProcessor (W : Type 0) : Type 0 where
  pub marshaller : Marshaller
  pub facade : EventsFacade W

-- `newBaseEventsPreProcessor` with `checkBaseEventsPreProcessorArgs`
unfoldable pub new_base_events_pre_processor :
    {W : Type 0} → Option Marshaller → Option (EventsFacade W) → Result (BaseEventsPreProcessor W)
new_base_events_pre_processor marshaller facade = do
  m ← require marshaller nil_marshaller
  f ← require facade nil_facade_handler
  ok (record { marshaller = m; facade = f })

-- process.DataProcessor
pub record DataProcessor (W : Type 0) : Type 0 where
  pub save_block : Bytes → W → Option (Result (Unit {0}) × W)
  pub revert_indexed_block : Bytes → W → Option (Result (Unit {0}) × W)
  pub finalized_block : Bytes → W → Option (Result (Unit {0}) × W)

module _ {W : Type 0} (facade : EventsFacade W) where
  -- The ends of the three handlers: an error returns at once, a decoded value goes to the facade.
  unfoldable pub push_decoded : Result ArgsSaveBlockData → W → Option (Result (Unit {0}) × W)
  push_decoded (err e) w = some (err e, w)
  push_decoded panicked w = some (panicked, w)
  push_decoded (ok args) w = facade.handle_push_events args w

  unfoldable pub revert_decoded : Result RevertBlock → W → Option (Result (Unit {0}) × W)
  revert_decoded (err e) w = some (err e, w)
  revert_decoded panicked w = some (panicked, w)
  revert_decoded (ok b) w = elim (facade.handle_revert_events b w) [
    | none ↦ none
    | some w' ↦ some (ok tt, w')
  ]

  unfoldable pub finalized_decoded : Result FinalizedBlock → W → Option (Result (Unit {0}) × W)
  finalized_decoded (err e) w = some (err e, w)
  finalized_decoded panicked w = some (panicked, w)
  finalized_decoded (ok b) w = elim (facade.handle_finalized_events b w) [
    | none ↦ none
    | some w' ↦ some (ok tt, w')
  ]
