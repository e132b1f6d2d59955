-- ===== src/Tests/Cluster.antt =====
-- Two notifiers that are sent the same block, on the test server.
use mx_chain_notifier_go.Base.{◌≤◌, refl, [], ◌∷◌, ◌++◌, true, false, codes, str_eq}
use mx_chain_notifier_go.Common.{revert_block_events}
use mx_chain_notifier_go.Process.LockKeys.{get_prefix_locker_key}
use mx_chain_notifier_go.Process.EventsHandler.Cluster.{
  Phase, at, Cluster, decided, ClusterSteps, begins, next, arrives, answers, sends,
}
use mx_chain_notifier_go.Process.EventsHandler.Cluster.OnceOnly.{times, cluster_once_only}
use mx_chain_notifier_go.Process.EventsHandler.Cluster.Sequential.{
  try_check_processed_with_retry-ClusterSteps,
}
use mx_chain_notifier_go.Redis.{redlock_wrapper, new_redis_client_wrapper, is_connected_by_ping}
use mx_chain_notifier_go.Redis.LockLaws.{redlock_wrapper-LockLaws}
use mx_chain_notifier_go.Tests.Fixtures.{
  Server, has, server, server-SetNxLaws, handler, start, clock,
}
use mx_chain_notifier_go.Tests.Handler.{after_ff, ff_checked}

abbrev empty_server : Server
empty_server = record { outages = 0; lossy = false; keys = [] }

-- Both ask, the first is told to go on and sends; the second is told that the block was processed.
abbrev two_arrived : Cluster Server
two_arrived = record {
  lock = empty_server;
  tasks = at (codes "ab07") Phase.asking ∷ at (codes "ab07") Phase.asking ∷ [];
  sent_keys = [];
}

abbrev one_sent : Cluster Server
one_sent = record {
  lock = record { outages = 0; lossy = false; keys = codes "ab07" ∷ codes "ab07" ∷ [] };
  tasks = at (codes "ab07") Phase.handled ∷ at (codes "ab07") Phase.handled ∷ [];
  sent_keys = codes "ab07" ∷ [];
}

two_notifiers :
    ClusterSteps handler.locker
      (record { lock = empty_server; tasks = []; sent_keys = [] })
      one_sent
unfolding redlock_wrapper new_redis_client_wrapper is_connected_by_ping str_eq
two_notifiers =
    next
      (next
        (next (next (next begins (arrives (codes "ab07"))) (arrives (codes "ab07"))) (
          answers [] (codes "ab07") (at (codes "ab07") Phase.asking ∷ []) true
            (record empty_server { keys = codes "ab07" ∷ [] }) refl refl))
        (answers (at (codes "ab07") Phase.sending ∷ []) (codes "ab07") [] false one_sent.lock refl
          refl))
      (sends [] (codes "ab07") (at (codes "ab07") Phase.handled ∷ []) refl)

cluster_once_only_example : times (codes "ab07") one_sent.sent_keys ≤ 1
cluster_once_only_example =
    cluster_once_only (redlock_wrapper-LockLaws server has server-SetNxLaws 60_000_000_000)
      empty_server one_sent (codes "ab07") two_notifiers

try_check_processed_with_retry-ClusterSteps_example :
    ClusterSteps handler.locker
      (record {
        lock = start.lock;
        tasks =
            at (codes "cd") Phase.sending
            ∷ at (get_prefix_locker_key revert_block_events ++ codes "ff") Phase.asking
            ∷ [];
        sent_keys = [];
      })
      (record {
        lock = after_ff.lock;
        tasks =
            at (codes "cd") Phase.sending
            ∷ at (get_prefix_locker_key revert_block_events ++ codes "ff") (decided true)
            ∷ [];
        sent_keys = [];
      })
try_check_processed_with_retry-ClusterSteps_example =
    try_check_processed_with_retry-ClusterSteps clock handler 3 revert_block_events (codes "ff")
      start (at (codes "cd") Phase.sending ∷ []) [] [] ff_checked
