-- ===== src/Process/LockKeys.antt =====
-- process/eventsHandler.go: the keys of the lock service and the names of the counted operations.
use mx_chain_notifier_go.Base.{[], ◌++◌, GoString, codes, str_eq, if◌then◌else◌}
use mx_chain_notifier_go.Common.{push_logs_and_events, revert_block_events, finalized_block_events}

abbrev pub revert_key_prefix : GoString
revert_key_prefix = codes "revert_"

abbrev pub finalized_key_prefix : GoString
finalized_key_prefix = codes "finalized_"

unfoldable pub get_prefix_locker_key : GoString → GoString
get_prefix_locker_key id =
    if str_eq id push_logs_and_events
    then []
    else if str_eq id revert_block_events
    then revert_key_prefix
    else if str_eq id finalized_block_events
    then finalized_key_prefix
    else []

unfoldable pub get_rabbit_op_id : GoString → GoString
get_rabbit_op_id operation = codes "RabbitMQ" ++ (codes "-" ++ operation)

unfoldable pub get_redis_op_id : GoString → GoString
get_redis_op_id operation = codes "Redis" ++ (codes "-" ++ operation)
