-- ===== src/Process/Preprocess/Blocks.antt =====
-- process/preprocess together with process/eventsInterceptor.go: what becomes of the blocks that the
-- two versions decode.
use mx_chain_notifier_go.Base.{encode_to_string, ◌≡◌, string_eq}
use mx_chain_notifier_go.Data.{
  Header, block_body, TransactionsPool, OutportBlockDataOld, InterceptorBlockData,
}
use mx_chain_notifier_go.Process.EventsInterceptor.{PubkeyConverter}
use mx_chain_notifier_go.Process.EventsInterceptor.Blocks.{events_of_logs}
use mx_chain_notifier_go.Process.Preprocess.VersionZero.{parse_txs, parse_scrs, append_logs}

-- What the interceptor makes of a block that version 0 decoded, from the old structs.
abbrev pub InterceptedV0 :
    PubkeyConverter
    → OutportBlockDataOld
    → TransactionsPool
    → Header
    → InterceptorBlockData
    → Type 0
InterceptedV0 converter old pool header d =
    (d.hash ≡ encode_to_string old.header_hash)
    × (d.body ≡ block_body old.body)
    × (d.header ≡ header)
    × (d.txs_with_order ≡ parse_txs pool.txs)
    × (d.scrs_with_order ≡ parse_scrs pool.scrs)
    × (d.log_events ≡ events_of_logs converter (append_logs pool.logs))
