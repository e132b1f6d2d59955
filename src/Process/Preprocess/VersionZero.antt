-- ===== src/Process/Preprocess/VersionZero.antt =====
-- process/preprocess/eventsPreProcessorV0.go
use mx_chain_notifier_go.Base.{
  ℕ, ◌%◌, List, [], ◌∷◌, ◌++◌, Option, none, some, GoString, Bytes, length, replicate,
}
use mx_chain_notifier_go.Errors.{Result, ok, ◌>>=◌, require, nil_transactions_pool}
use mx_chain_notifier_go.Data.{
  Header, block_body, OutportLogData, TxInfo, ScrInfo, TransactionPool, LogData, NodeTransaction,
  NodeSmartContractResult, TransactionsPool, ArgsSaveBlockData,
}
use mx_chain_notifier_go.Process.Preprocess.{
  Marshaller, BaseEventsPreProcessor, DataProcessor, get_header_from_bytes, push_decoded,
  revert_decoded, finalized_decoded,
}

-- `uint32(x)` of an int
abbrev pub to_uint32 : ℕ → ℕ
to_uint32 x = x % 4294967296

unfoldable pub parse_txs :
    List (GoString × Option NodeTransaction) → List (GoString × Option TxInfo)
parse_txs [] = []
parse_txs ((hash, none) ∷ txs) = parse_txs txs
parse_txs ((hash, some tx) ∷ txs) =
    (
      hash,
      some (record {
        transaction = tx.transaction_handler;
        fee_info = some tx.fee_info;
        execution_order = to_uint32 tx.execution_order;
      }),
    )
    ∷ parse_txs txs

unfoldable pub parse_scrs :
    List (GoString × Option NodeSmartContractResult) → List (GoString × Option ScrInfo)
parse_scrs [] = []
parse_scrs ((hash, none) ∷ scrs) = parse_scrs scrs
parse_scrs ((hash, some scr) ∷ scrs) =
    (
      hash,
      some (record {
        smart_contract_result = scr.transaction_handler;
        fee_info = some scr.fee_info;
        execution_order = to_uint32 scr.execution_order;
      }),
    )
    ∷ parse_scrs scrs

-- What the loop of `parseLogs` appends.
unfoldable pub append_logs : List (Option LogData) → List (Option OutportLogData)
append_logs [] = []
append_logs (none ∷ logs) = append_logs logs
append_logs (some l ∷ logs) =
    some (record { tx_hash = l.tx_hash; log = l.log_handler }) ∷ append_logs logs

-- It appends behind the nil pointers of `make([]*outport.LogData, len(logs))`.
unfoldable pub parse_logs : List (Option LogData) → List (Option OutportLogData)
unfolding append_logs
parse_logs logs = replicate (length logs) none ++ append_logs logs

unfoldable pub parse_transactions_pool : Option TransactionsPool → Result TransactionPool
unfolding parse_txs parse_scrs parse_logs
parse_transactions_pool txs_pool = do
  pool ← require txs_pool nil_transactions_pool
  ok (record {
    transactions = parse_txs pool.txs;
    smart_contract_results = parse_scrs pool.scrs;
    logs = parse_logs pool.logs;
  })

unfoldable pub get_header : Marshaller → Bytes → Result Header
get_header m marshaled_data = do
  header_type ← m.unmarshal_header_type marshaled_data
  get_header_from_bytes m header_type marshaled_data

-- `SaveBlock` up to its call of the facade.
unfoldable pub decode_block_v0 : Marshaller → Bytes → Result ArgsSaveBlockData
unfolding get_header
decode_block_v0 m marshalled_data = do
  block_data ← m.unmarshal_block_data_old marshalled_data
  header ← get_header m marshalled_data
  txs_pool ← parse_transactions_pool block_data.transactions_pool
  ok (record {
    header_hash = block_data.header_hash;
    body = block_body block_data.body;
    header = some header;
    signers_indexes = block_data.signers_indexes;
    notarized_headers_hashes = block_data.notarized_headers_hashes;
    header_gas_consumption = some block_data.header_gas_consumption;
    transactions_pool = some txs_pool;
    altered_accounts = block_data.altered_accounts;
    number_of_shards = block_data.number_of_shards;
  })

-- eventsPreProcessorV0: `SaveBlock`, `RevertIndexedBlock`, `FinalizedBlock`
unfoldable pub events_pre_processor_v0 : {W : Type 0} → BaseEventsPreProcessor W → DataProcessor W
unfolding decode_block_v0
events_pre_processor_v0 d = record {
  save_block = λ bytes. push_decoded d.facade (decode_block_v0 d.marshaller bytes);
  revert_indexed_block =
      λ bytes. revert_decoded d.facade (d.marshaller.unmarshal_revert_block bytes);
  finalized_block =
      λ bytes. finalized_decoded d.facade (d.marshaller.unmarshal_finalized_block bytes);
}
