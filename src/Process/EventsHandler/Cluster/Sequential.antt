-- ===== src/Process/EventsHandler/Cluster/Sequential.antt =====
-- process/eventsHandler.go: the loop of `tryCheckProcessedWithRetry` as steps of a cluster.
use mx_chain_notifier_go.Base.{ℕ, ◌≡◌, refl, sym, subst, List, ◌∷◌, ◌++◌, Bool, some, GoString}
use mx_chain_notifier_go.Process.LockKeys.{get_prefix_locker_key}
use mx_chain_notifier_go.Process.Interface.{LockService}
use mx_chain_notifier_go.Process.EventsHandler.{
  EventsHandler, World, try_check_processed_with_retry,
}
use mx_chain_notifier_go.Process.EventsHandler.Retry.{
  Answers, answered, failed, try_check_processed_with_retry_sound,
}
use mx_chain_notifier_go.Process.EventsHandler.Cluster.{
  Phase, Task, at, Cluster, decided, ClusterSteps, begins, next, answers, fails, looks,
}

-- The cluster with one task in a phase.
abbrev with_task :
    {R : Type 0} → List Task → GoString → List Task → List GoString → R → Phase → Cluster R
with_task before key after sent_keys r p = record {
  lock = r;
  tasks = before ++ at key p ∷ after;
  sent_keys = sent_keys;
}

module _ {R : Type 0} {l : LockService R} where
  ClusterSteps-append :
      {a b c : Cluster R} → ClusterSteps l a b → ClusterSteps l b c → ClusterSteps l a c
  ClusterSteps-append xs begins = xs
  ClusterSteps-append xs (next ys s) = next (ClusterSteps-append xs ys) s

  Answers-ClusterSteps :
      (before : List Task) (key : GoString) (after : List Task) (sent_keys : List GoString) {r : R}
      {n ms : ℕ} {b : Bool} {r' : R}
      → Answers l key r n ms b r'
      → ClusterSteps l
          (with_task before key after sent_keys r Phase.asking)
          (with_task before key after sent_keys r' (decided b))
  Answers-ClusterSteps before key after sent_keys (answered {r = r} {r' = r'} {b = b} p) =
      next begins (answers before key after b r' refl p)
  Answers-ClusterSteps before key after sent_keys
        (failed {r = r} {r' = r'} {r'' = r''} {b = b} e connected p q a) =
      ClusterSteps-append
        (next (next begins (fails before key after b e r' refl p))
          (looks before key after connected r'' refl q))
        (Answers-ClusterSteps before key after sent_keys a)

module _ {R P : Type 0} (clock : ℕ → ℕ) (eh : EventsHandler R P) where
  -- A retry loop of one handler that ends is a run of the cluster's steps for its task, among any
  -- other tasks that pause meanwhile: the task asks, waits and asks again until it is decided.
  pub try_check_processed_with_retry-ClusterSteps :
      (fuel : ℕ) (id block_hash : GoString) (w : World R P) {b : Bool} {w' : World R P}
      (before after : List Task) (sent_keys : List GoString)
      → try_check_processed_with_retry clock eh fuel id block_hash w ≡ some (b, w')
      → ClusterSteps eh.locker
          (record {
            lock = w.lock;
            tasks = before ++ at (get_prefix_locker_key id ++ block_hash) Phase.asking ∷ after;
            sent_keys = sent_keys;
          })
          (record {
            lock = w'.lock;
            tasks = before ++ at (get_prefix_locker_key id ++ block_hash) (decided b) ∷ after;
            sent_keys = sent_keys;
          })
  try_check_processed_with_retry-ClusterSteps fuel id block_hash w {b} {w'} before after sent_keys
        h =
      let (n, ms, r', a, lt, ended) =
        try_check_processed_with_retry_sound clock eh fuel id block_hash w h in
      let key : GoString = get_prefix_locker_key id ++ block_hash in
      subst
        (λ r.
          ClusterSteps eh.locker (with_task before key after sent_keys w.lock Phase.asking)
            (with_task before key after sent_keys r (decided b)))
        (sym ended.lock) (Answers-ClusterSteps before key after sent_keys a)
