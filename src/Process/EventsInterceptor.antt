-- ===== src/Process/EventsInterceptor.antt =====
-- process/eventsInterceptor.go: the events, transactions and results of a block, taken out of the
-- observer's data.
pub mod Blocks
use mx_chain_notifier_go.Base.{
  List, [], ◌∷◌, ◌++◌, map, Option, none, some, GoString, Bytes, encode_to_string,
}
use mx_chain_notifier_go.Errors.{
  Result, ok, err, panicked, ◌>>=◌, require, nil_block_events, nil_transactions_pool,
  nil_block_body, nil_block_header, nil_pub_key_converter, GoError,
}
use mx_chain_notifier_go.Data.{
  Ref, Header, EventHandler, BodyHandler, nil_interface, block_body, Log, OutportLogData, TxInfo,
  ScrInfo, TransactionPool, Event, InterceptorBlockData, ArgsSaveBlockData,
}

-- core.PubkeyConverter, of which only `Encode` is called.
abbrev pub PubkeyConverter : Type 0
PubkeyConverter = Bytes → Result GoString

pub record LogEvent : Type 0 where
  pub event_handler : Option EventHandler
  pub tx_hash : GoString

-- `if body == nil { return ErrNilBlockBody }`: a nil `*block.Body` inside the interface is not nil.
abbrev pub require_body : BodyHandler → Result BodyHandler
require_body nil_interface = err nil_block_body
require_body (block_body b) = ok (block_body b)

-- The first loop of `getLogEventsFromTransactionsPool`.
unfoldable pub collect_log_events : List (Option OutportLogData) → List LogEvent
collect_log_events [] = []
collect_log_events (none ∷ logs) = collect_log_events logs
collect_log_events (some log_data ∷ logs) =
    let rest = collect_log_events logs in
    elim log_data.log [
      | none ↦ rest
      | some log ↦
          map (λ event. record { event_handler = event; tx_hash = log_data.tx_hash }) log.events
          ++ rest
    ]

-- The loops over the pool's maps; a nil entry is dereferenced.
unfoldable pub extract_txs : List (GoString × Option TxInfo) → Result (List (GoString × Option Ref))
extract_txs [] = ok []
extract_txs ((hash, none) ∷ m) = panicked
extract_txs ((hash, some tx) ∷ m) = do rest ← extract_txs m; ok ((hash, tx.transaction) ∷ rest)

unfoldable pub extract_scrs :
    List (GoString × Option ScrInfo) → Result (List (GoString × Option Ref))
extract_scrs [] = ok []
extract_scrs ((hash, none) ∷ m) = panicked
extract_scrs ((hash, some scr) ∷ m) = do
  rest ← extract_scrs m
  ok ((hash, scr.smart_contract_result) ∷ rest)

-- The `data.Event` literal of the second loop.
abbrev pub event_of : EventHandler → GoString → GoString → Event
event_of event address tx_hash = record {
  address = address;
  identifier = event.identifier;
  topics = event.topics;
  data_bytes = event.data_bytes;
  tx_hash = tx_hash;
}

-- eventsInterceptor, whose one field is the converter.
module _ (pub_key_converter : PubkeyConverter) where
  -- The second loop: an event without a handler, or whose address cannot be encoded, is skipped.
  unfoldable pub convert_events : List LogEvent → List Event
  convert_events [] = []
  convert_events (le ∷ les) =
      let rest = convert_events les in
      elim le.event_handler [
        | none ↦ rest
        | some event ↦ elim (pub_key_converter event.address) [
          | ok address ↦ event_of event address le.tx_hash ∷ rest
          | err e ↦ rest
          | panicked ↦ rest
        ]
      ]

  unfoldable pub get_log_events_from_transactions_pool : List (Option OutportLogData) → List Event
  unfolding collect_log_events convert_events
  get_log_events_from_transactions_pool logs = convert_events (collect_log_events logs)

  unfoldable pub process_block_events : Option ArgsSaveBlockData → Result InterceptorBlockData
  process_block_events events_data = do
    args ← require events_data nil_block_events
    pool ← require args.transactions_pool nil_transactions_pool
    body ← require_body args.body
    header ← require args.header nil_block_header
    let events = get_log_events_from_transactions_pool pool.logs
    txs ← extract_txs pool.transactions
    scrs ← extract_scrs pool.smart_contract_results
    ok (record {
      hash = encode_to_string args.header_hash;
      body = body;
      header = header;
      txs = txs;
      txs_with_order = pool.transactions;
      scrs = scrs;
      scrs_with_order = pool.smart_contract_results;
      log_events = events;
    })

-- `NewEventsInterceptor`
unfoldable pub new_events_interceptor :
    Option PubkeyConverter → Result (Option ArgsSaveBlockData → Result InterceptorBlockData)
new_events_interceptor converter = do
  c ← require converter nil_pub_key_converter
  ok (process_block_events c)
