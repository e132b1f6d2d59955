-- ===== src/Process/EventsInterceptor/Blocks.antt =====
-- process/eventsInterceptor.go: what the interceptor makes of a block, and when it panics.
use mx_chain_notifier_go.Base.{
  List, [], ◌∷◌, ◌++◌, Option, none, some, GoString, encode_to_string, Bool, true, false, ◌≡◌,
  arith,
}
use mx_chain_notifier_go.Errors.{ok, err, panicked}
use mx_chain_notifier_go.Data.{
  Ref, Header, EventHandler, OutportLogData, TxInfo, ScrInfo, TransactionPool, Event,
  InterceptorBlockData, ArgsSaveBlockData,
}
use mx_chain_notifier_go.Process.EventsInterceptor.{PubkeyConverter, event_of, process_block_events}

module _ (converter : PubkeyConverter) where
  -- The events of one log, with the hash of its transaction.
  abbrev pub events_of_log : GoString → List (Option EventHandler) → List Event
  events_of_log tx_hash [] = []
  events_of_log tx_hash (none ∷ events) = events_of_log tx_hash events
  events_of_log tx_hash (some event ∷ events) =
      let rest = events_of_log tx_hash events in
      elim (converter event.address) [
        | ok address ↦ event_of event address tx_hash ∷ rest
        | err e ↦ rest
        | panicked ↦ rest
      ]

  -- The events of a block, log by log.
  abbrev pub events_of_logs : List (Option OutportLogData) → List Event
  events_of_logs [] = []
  events_of_logs (none ∷ logs) = events_of_logs logs
  events_of_logs (some l ∷ logs) =
      let rest = events_of_logs logs in
      elim l.log [ none ↦ rest | some log ↦ events_of_log l.tx_hash log.events ++ rest ]

-- A pool has a nil entry.
abbrev pub has_nil : {A : Type 0} → List (GoString × Option A) → Bool
has_nil [] = false
has_nil ((hash, none) ∷ m) = true
has_nil ((hash, some a) ∷ m) = has_nil m

-- The transactions of a map of wrappers, under the same hashes.
abbrev pub transactions_of : List (GoString × Option TxInfo) → List (GoString × Option Ref)
transactions_of [] = []
transactions_of ((hash, none) ∷ m) = transactions_of m
transactions_of ((hash, some tx) ∷ m) = (hash, tx.transaction) ∷ transactions_of m

abbrev pub results_of : List (GoString × Option ScrInfo) → List (GoString × Option Ref)
results_of [] = []
results_of ((hash, none) ∷ m) = results_of m
results_of ((hash, some scr) ∷ m) = (hash, scr.smart_contract_result) ∷ results_of m

-- What the interceptor is to give for a block with a pool and a header.
abbrev pub intercepted :
    PubkeyConverter → ArgsSaveBlockData → TransactionPool → Header → InterceptorBlockData
intercepted converter args pool header = record {
  hash = encode_to_string args.header_hash;
  body = args.body;
  header = header;
  txs = transactions_of pool.transactions;
  txs_with_order = pool.transactions;
  scrs = results_of pool.smart_contract_results;
  scrs_with_order = pool.smart_contract_results;
  log_events = events_of_logs converter pool.logs;
}

-- A result of the interceptor bears the hexadecimal header hash of its block.
pub process_block_events_hash :
    (converter : PubkeyConverter) (args : ArgsSaveBlockData) (d : InterceptorBlockData)
    → process_block_events converter (some args) ≡ ok d
    → d.hash ≡ encode_to_string args.header_hash
unfolding process_block_events
process_block_events_hash converter args d e = ground arith
