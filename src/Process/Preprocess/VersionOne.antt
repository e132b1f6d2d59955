-- ===== src/Process/Preprocess/VersionOne.antt =====
-- process/preprocess/eventsPreProcessorV1.go
use mx_chain_notifier_go.Base.{some, Bytes, encode_to_string}
use mx_chain_notifier_go.Errors.{
  Result, ok, ◌>>=◌, require, nil_block_data, nil_transaction_pool, nil_header_gas_consumption,
}
use mx_chain_notifier_go.Data.{
  Ref, block_body, ArgsSaveBlockData, RevertBlock, FinalizedBlock, TransactionPool,
}
use mx_chain_notifier_go.Process.Preprocess.{
  Marshaller, OutportBlockData, OutportBlock, BaseEventsPreProcessor, DataProcessor,
  get_header_from_bytes, push_decoded, revert_decoded, finalized_decoded,
}

-- `checkBlockDataValid`, which gives the parts that it found.
unfoldable pub check_block_data_valid :
    OutportBlock → Result (OutportBlockData × TransactionPool × Ref)
check_block_data_valid block = do
  block_data ← require block.block_data nil_block_data
  pool ← require block.transaction_pool nil_transaction_pool
  gas ← require block.header_gas_consumption nil_header_gas_consumption
  ok (block_data, pool, gas)

-- `SaveBlock` up to its call of the facade.
unfoldable pub decode_block_v1 : Marshaller → Bytes → Result ArgsSaveBlockData
unfolding check_block_data_valid
decode_block_v1 m marshalled_data = do
  outport_block ← m.unmarshal_outport_block marshalled_data
  parts ← check_block_data_valid outport_block
  header ← get_header_from_bytes m parts.0.header_type parts.0.header_bytes
  ok (record {
    header_hash = parts.0.header_hash;
    body = block_body parts.0.body;
    header = some header;
    signers_indexes = outport_block.signers_indexes;
    notarized_headers_hashes = outport_block.notarized_headers_hashes;
    header_gas_consumption = some parts.2;
    transactions_pool = some parts.1;
    altered_accounts = outport_block.altered_accounts;
    number_of_shards = outport_block.number_of_shards;
  })

-- `RevertIndexedBlock` up to its call of the facade.
unfoldable pub decode_revert_v1 : Marshaller → Bytes → Result RevertBlock
decode_revert_v1 m marshalled_data = do
  block_data ← m.unmarshal_block_data marshalled_data
  header ← get_header_from_bytes m block_data.header_type block_data.header_bytes
  ok (record {
    hash = encode_to_string block_data.header_hash;
    nonce = header.nonce;
    round = header.round;
    epoch = header.epoch;
  })

-- `FinalizedBlock` up to its call of the facade.
unfoldable pub decode_finalized_v1 : Marshaller → Bytes → Result FinalizedBlock
decode_finalized_v1 m marshalled_data = do
  finalized_block ← m.unmarshal_outport_finalized_block marshalled_data
  ok (record { hash = encode_to_string finalized_block.header_hash })

-- eventsPreProcessorV1: `SaveBlock`, `RevertIndexedBlock`, `FinalizedBlock`
unfoldable pub events_pre_processor_v1 : {W : Type 0} → BaseEventsPreProcessor W → DataProcessor W
unfolding decode_block_v1 decode_revert_v1 decode_finalized_v1
events_pre_processor_v1 d = record {
  save_block = λ bytes. push_decoded d.facade (decode_block_v1 d.marshaller bytes);
  revert_indexed_block = λ bytes. revert_decoded d.facade (decode_revert_v1 d.marshaller bytes);
  finalized_block = λ bytes. finalized_decoded d.facade (decode_finalized_v1 d.marshaller bytes);
}
