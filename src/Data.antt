-- ===== src/Data.antt =====
-- data/*.go and the fields that the notifier reads of mx-chain-core-go's structs.
--
-- An object of mx-chain-core-go that the notifier passes on without a look inside is a `Ref`; a
-- pointer to one, or to a struct, is an `Option`. An interface value whose getters the notifier
-- calls is the record of what they return. uint32 and uint64 fields are numbers below 2^32 and 2^64;
-- an `int` field is its 64-bit pattern.
use mx_chain_notifier_go.Base.{ℕ, List, Option, GoString, Bytes}

abbrev pub Ref : Type 0
Ref = ℕ

-- nodeData.HeaderHandler
pub record Header : Type 0 where
  pub shard_id : ℕ
  pub time_stamp : ℕ
  pub nonce : ℕ
  pub round : ℕ
  pub epoch : ℕ

-- nodeData.EventHandler
pub record EventHandler : Type 0 where
  pub address : Bytes
  pub identifier : Bytes
  pub topics : List Bytes
  pub data_bytes : Bytes

-- nodeData.BodyHandler: the nil interface, or a `*block.Body`, which may itself be nil.
pub data BodyHandler : Type 0 where
  nil_interface : BodyHandler
  block_body : Option Ref → BodyHandler

-- transaction.Log, outport.LogData, outport.TxInfo, outport.SCRInfo, outport.TransactionPool
pub record Log : Type 0 where
  pub events : List (Option EventHandler)

pub record OutportLogData : Type 0 where
  pub tx_hash : GoString
  pub log : Option Log

pub record TxInfo : Type 0 where
  pub transaction : Option Ref
  pub fee_info : Option Ref
  pub execution_order : ℕ

pub record ScrInfo : Type 0 where
  pub smart_contract_result : Option Ref
  pub fee_info : Option Ref
  pub execution_order : ℕ

pub record TransactionPool : Type 0 where
  pub transactions : List (GoString × Option TxInfo)
  pub smart_contract_results : List (GoString × Option ScrInfo)
  pub logs : List (Option OutportLogData)

pub record Event : Type 0 where
  pub address : GoString
  pub identifier : GoString
  pub topics : List Bytes
  pub data_bytes : Bytes
  pub tx_hash : GoString

pub record BlockEvents : Type 0 where
  pub hash : GoString
  pub shard_id : ℕ
  pub time_stamp : ℕ
  pub events : List Event

pub record RevertBlock : Type 0 where
  pub hash : GoString
  pub nonce : ℕ
  pub round : ℕ
  pub epoch : ℕ

pub record FinalizedBlock : Type 0 where
  pub hash : GoString

pub record BlockTxs : Type 0 where
  pub hash : GoString
  pub txs : List (GoString × Option Ref)

pub record BlockScrs : Type 0 where
  pub hash : GoString
  pub scrs : List (GoString × Option Ref)

pub record BlockEventsWithOrder : Type 0 where
  pub hash : GoString
  pub shard_id : ℕ
  pub time_stamp : ℕ
  pub txs : List (GoString × Option TxInfo)
  pub scrs : List (GoString × Option ScrInfo)
  pub events : List Event

pub record InterceptorBlockData : Type 0 where
  pub hash : GoString
  pub body : BodyHandler
  pub header : Header
  pub txs : List (GoString × Option Ref)
  pub txs_with_order : List (GoString × Option TxInfo)
  pub scrs : List (GoString × Option Ref)
  pub scrs_with_order : List (GoString × Option ScrInfo)
  pub log_events : List Event

pub record ArgsSaveBlockData : Type 0 where
  pub header_hash : Bytes
  pub body : BodyHandler
  pub header : Option Header
  pub signers_indexes : List ℕ
  pub notarized_headers_hashes : List GoString
  pub header_gas_consumption : Option Ref
  pub transactions_pool : Option TransactionPool
  pub altered_accounts : List (GoString × Option Ref)
  pub number_of_shards : ℕ

pub record LogData : Type 0 where
  pub log_handler : Option Log
  pub tx_hash : GoString

pub record NodeTransaction : Type 0 where
  pub transaction_handler : Option Ref
  pub fee_info : Ref
  pub execution_order : ℕ

pub record NodeSmartContractResult : Type 0 where
  pub transaction_handler : Option Ref
  pub fee_info : Ref
  pub execution_order : ℕ

pub record TransactionsPool : Type 0 where
  pub txs : List (GoString × Option NodeTransaction)
  pub scrs : List (GoString × Option NodeSmartContractResult)
  pub logs : List (Option LogData)

pub record OutportBlockDataOld : Type 0 where
  pub header_hash : Bytes
  pub body : Option Ref
  pub transactions_pool : Option TransactionsPool
  pub signers_indexes : List ℕ
  pub notarized_headers_hashes : List GoString
  pub header_gas_consumption : Ref
  pub altered_accounts : List (GoString × Option Ref)
  pub number_of_shards : ℕ

pub record SubscriptionEntry : Type 0 where
  pub event_type : GoString
  pub address : GoString
  pub identifier : GoString
  pub topics : List GoString

pub record SubscribeEvent : Type 0 where
  pub dispatcher_id : ℕ
  pub subscription_entries : List SubscriptionEntry

pub record Subscription : Type 0 where
  pub address : GoString
  pub identifier : GoString
  pub topics : List GoString
  pub match_level : GoString
  pub event_type : GoString
  pub dispatcher_id : ℕ

pub record WebSocketEvent : Type 0 where
  pub type : GoString
  pub payload : Bytes

-- What a component sends on to the subscribers: one constructor for each publish operation.
pub data Message : Type 0 where
  push : BlockEvents → Message
  revert : RevertBlock → Message
  finalized : FinalizedBlock → Message
  txs : BlockTxs → Message
  scrs : BlockScrs → Message
  events_with_order : BlockEventsWithOrder → Message
