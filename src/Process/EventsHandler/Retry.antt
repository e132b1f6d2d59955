-- ===== src/Process/EventsHandler/Retry.antt =====
-- process/eventsHandler.go: the loop of `tryCheckProcessedWithRetry`.
use mx_chain_notifier_go.Base.{
  ℕ, zero, suc, ◌+◌, ◌*◌, ◌<◌, ◌≡◌, refl, inl, inr, Bool, none, some, GoString, ◌++◌, arith,
  if◌then◌else◌, Option-cases,
}
use mx_chain_notifier_go.Errors.{GoError}
use mx_chain_notifier_go.Process.LockKeys.{get_prefix_locker_key}
use mx_chain_notifier_go.Process.Interface.{LockService}
use mx_chain_notifier_go.Process.EventsHandler.{
  EventsHandler, World, ask_locker, wait_for_locker, retry_loop, try_check_processed_with_retry,
  set_retry_duration, reconnect_retry_duration,
}

-- `Answers l key r n waits b r'`: asked for the key from state `r` on, the lock service fails `n`
-- times, then answers `b` and is in state `r'`; between the attempts the handler waits `ms`
-- milliseconds in all.
pub data Answers {R : Type 0} (l : LockService R) (key : GoString)
    : R → ℕ → ℕ → Bool → R → Type 0 where
  answered :
      {r r' : R} {b : Bool}
      → l.is_event_processed key r ≡ ((b, none), r')
      → Answers l key r 0 0 b r'
  failed :
      {r r' r'' r''' : R} {n ms : ℕ} {b c : Bool} (e : GoError) (connected : Bool)
      → l.is_event_processed key r ≡ ((b, some e), r')
      → l.has_connection r' ≡ (connected, r'')
      → Answers l key r'' n ms c r'''
      → Answers l key r
          (suc n)
          ((if connected then set_retry_duration else reconnect_retry_duration) + ms)
          c
          r'''

module _ {R P : Type 0} (clock : ℕ → ℕ) (eh : EventsHandler R P) where
  -- What a loop that ended has done to the world.
  pub record Ended (w : World R P) (n ms : ℕ) (r : R) (w' : World R P) : Type 0 where
    pub lock : w'.lock ≡ r
    pub outbox : w'.outbox ≡ w.outbox
    pub readings : w'.readings ≡ w.readings + 2 * (n + 1)
    pub slept : w'.slept ≡ w.slept + ms

  retry_loop-Answers :
      (fuel : ℕ) (id key : GoString) (w : World R P) (r : R) {n ms : ℕ} {b : Bool} {r' : R}
      → w.lock ≡ r
      → Answers eh.locker key r n ms b r'
      → n < fuel
      → (w' : World R P) × (retry_loop clock eh fuel id key w ≡ some (b, w')) × Ended w n ms r' w'
  unfolding retry_loop ask_locker wait_for_locker
  retry_loop-Answers zero id key w r e a h = absurd (omega arith)
  retry_loop-Answers (suc fuel) id key w r e (answered p) h = (
    (ask_locker clock eh id key w).1,
    ground (arith, e, p),
    record {
      lock = ground (arith, e, p);
      outbox = refl;
      readings = omega arith;
      slept = omega arith;
    },
  )
  retry_loop-Answers (suc fuel) id key w r e (failed {n = n} {ms = ms} err connected p q a) h =
      let w1 : World R P = wait_for_locker clock eh (ask_locker clock eh id key w).1 in
      let waited : w1.slept
          ≡ w.slept + (if connected then set_retry_duration else reconnect_retry_duration) =
        ground (arith, e, p, q) in
      let (w', found, ended) =
        retry_loop-Answers fuel id key w1 _ (ground (arith, e, p, q)) a (omega arith) in
      (
        w',
        ground (arith, e, p, found),
        record {
          lock = ended.lock;
          outbox = ended.outbox;
          readings = omega (arith, ended.readings);
          slept = omega (arith, ended.slept, waited);
        },
      )

  retry_loop_sound :
      (fuel : ℕ) (id key : GoString) (w : World R P) {b : Bool} {w' : World R P}
      → retry_loop clock eh fuel id key w ≡ some (b, w')
      → (n ms : ℕ) × (r' : R) × Answers eh.locker key w.lock n ms b r'
        × (n < fuel)
        × Ended w n ms r' w'
  unfolding retry_loop ask_locker wait_for_locker
  retry_loop_sound zero id key w h = cc
  retry_loop_sound (suc fuel) id key w {b} {w'} h =
      elim (Option-cases (eh.locker.is_event_processed key w.lock).0.1) [
        | inl e ↦ (
          0,
          0,
          (eh.locker.is_event_processed key w.lock).1,
          answered (ground (arith, e, h)),
          omega arith,
          record {
            lock = ground (arith, e, h);
            outbox = ground (arith, e, h);
            readings = ground (arith, e, h);
            slept = ground (arith, e, h);
          },
        )
        | inr (err, e) ↦
            let w1 : World R P = wait_for_locker clock eh (ask_locker clock eh id key w).1 in
            let r1 : R = (eh.locker.is_event_processed key w.lock).1 in
            let connected : Bool = (eh.locker.has_connection r1).0 in
            let (n, ms, r', a, lt, ended) =
              retry_loop_sound fuel id key w1 {b = b} {w' = w'} (ground (arith, e, h)) in
            (
              suc n,
              (if connected then set_retry_duration else reconnect_retry_duration) + ms,
              r',
              failed {b = (eh.locker.is_event_processed key w.lock).0.0} err connected
                  (ground (arith, e)) refl a,
              omega (arith, lt),
              record {
                lock = ended.lock;
                outbox = ended.outbox;
                readings = omega (arith, ended.readings);
                slept = omega (arith, ended.slept);
              },
            )
      ]

  -- When the lock service fails n times for the key of an event and then answers, any fuel above n
  -- makes the retry loop end: it returns that answer after n + 1 attempts (two readings of the clock
  -- each), has waited 500 ms after a failure with a connection and 2000 ms after one without, leaves
  -- the publisher alone, and the lock service in the state of its answer.
  pub try_check_processed_with_retry-Answers :
      (fuel : ℕ) (id block_hash : GoString) (w : World R P) {n ms : ℕ} {b : Bool} {r' : R}
      → Answers eh.locker (get_prefix_locker_key id ++ block_hash) w.lock n ms b r'
      → n < fuel
      → (w' : World R P) × (try_check_processed_with_retry clock eh fuel id block_hash w
          ≡ some (b, w'))
        × Ended w n ms r' w'
  unfolding try_check_processed_with_retry
  try_check_processed_with_retry-Answers fuel id block_hash w a h =
      retry_loop-Answers fuel id (get_prefix_locker_key id ++ block_hash) w w.lock refl a h

  -- Whatever the retry loop returns is the first answer of the lock service that came without an
  -- error, after fewer failures than the fuel allows.
  pub try_check_processed_with_retry_sound :
      (fuel : ℕ) (id block_hash : GoString) (w : World R P) {b : Bool} {w' : World R P}
      → try_check_processed_with_retry clock eh fuel id block_hash w ≡ some (b, w')
      → (n ms : ℕ) × (r' : R) × Answers eh.locker
          (get_prefix_locker_key id ++ block_hash)
          w.lock
          n
          ms
          b
          r'
        × (n < fuel)
        × Ended w n ms r' w'
  unfolding try_check_processed_with_retry
  try_check_processed_with_retry_sound fuel id block_hash w h =
      retry_loop_sound fuel id (get_prefix_locker_key id ++ block_hash) w h
