-- ===== src/Common.antt =====
-- common/constants.go: the names by which components agree.
use mx_chain_notifier_go.Base.{ℕ, GoString, codes}

abbrev pub ws_publisher_type : GoString
ws_publisher_type = codes "ws"

abbrev pub message_queue_publisher_type : GoString
message_queue_publisher_type = codes "rabbitmq"

abbrev pub redis_instance_conn_type : GoString
redis_instance_conn_type = codes "instance"

abbrev pub redis_sentinel_conn_type : GoString
redis_sentinel_conn_type = codes "sentinel"

abbrev pub push_logs_and_events : GoString
push_logs_and_events = codes "all_events"

abbrev pub block_events : GoString
block_events = codes "block_events"

abbrev pub revert_block_events : GoString
revert_block_events = codes "revert_events"

abbrev pub finalized_block_events : GoString
finalized_block_events = codes "finalized_events"

abbrev pub block_txs : GoString
block_txs = codes "block_txs"

abbrev pub block_scrs : GoString
block_scrs = codes "block_scrs"

abbrev pub payload_v0 : ℕ
payload_v0 = 0

abbrev pub payload_v1 : ℕ
payload_v1 = 1
