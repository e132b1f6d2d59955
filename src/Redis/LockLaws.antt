-- ===== src/Redis/LockLaws.antt =====
-- redis/redlock.go on a server with SETNX: the lock service that the events handler relies on.
use mx_chain_notifier_go.Base.{
  ℕ, ◌*◌, ◌%◌, ◌≤◌, Bool, true, not, none, some, GoString, codes, ◌==◌, if◌then◌else◌, ◌≡◌, arith,
  Bool-cases, inl, inr,
}
use mx_chain_notifier_go.Errors.{ok, err, wrapped, zero_value_received}
use mx_chain_notifier_go.Process.EventsHandler.LockLaws.{LockLaws}
use mx_chain_notifier_go.Redis.{
  RedisClient, RedLockClient, new_redis_client_wrapper, redlock_ttl, redlock_wrapper,
  new_redlock_wrapper,
}

-- Redis' documentation of SETNX and PING, while no key expires: SETNX sets a key that does not exist
-- and answers whether it did; neither command removes a key. After an error the key may be set.
pub record SetNxLaws {S : Type 0} (redis : RedisClient S) (has : S → GoString → Bool) : Type 0 where
  pub answers :
      (key : GoString) (v : Bool) (ttl : ℕ) (s : S)
      → (redis.set_nx key v ttl s).0.1 ≡ none
      → (redis.set_nx key v ttl s).0.0 ≡ not (has s key)
  pub sets :
      (key : GoString) (v : Bool) (ttl : ℕ) (s : S)
      → (redis.set_nx key v ttl s).0.1 ≡ none
      → has (redis.set_nx key v ttl s).1 key ≡ true
  pub stays :
      (key other : GoString) (v : Bool) (ttl : ℕ) (s : S)
      → has s other ≡ true
      → has (redis.set_nx key v ttl s).1 other ≡ true
  pub ping_stays :
      (other : GoString) (s : S) → has s other ≡ true → has (redis.ping s).1 other ≡ true

module _ {S : Type 0} (redis : RedisClient S) (has : S → GoString → Bool)
    (laws : SetNxLaws redis has) where
  pub redlock_wrapper-LockLaws :
      (ttl : ℕ) → LockLaws (redlock_wrapper (new_redis_client_wrapper redis) ttl) has
  unfolding redlock_wrapper new_redis_client_wrapper
  redlock_wrapper-LockLaws ttl = record {
    answers_new = λ key r r' b p. (
      λ new. ground (arith, p, laws.answers key true ttl r),
      ground (arith, p, laws.sets key true ttl r),
    );
    keeps = λ key other r h. laws.stays key other true ttl r h;
    keeps_connected = λ other r h. laws.ping_stays other r h;
  }

-- `NewRedlockWrapper` refuses a time to live of zero minutes; for one of up to 153722867 minutes the
-- duration that it stores is that many minutes in nanoseconds, within an int64.
new_redlock_wrapper_ttl :
    {S : Type 0} (client : RedLockClient S) (ttl : ℕ)
    → ttl ≤ 153722867
    → new_redlock_wrapper (some client) ttl ≡ (
        if ttl == 0
        then err (wrapped zero_value_received (codes " for TTL in minutes"))
        else ok (redlock_wrapper client (60_000_000_000 * ttl)))
unfolding new_redlock_wrapper redlock_ttl
new_redlock_wrapper_ttl client ttl h = elim (Bool-cases (ttl == 0)) [
  | inl zero_minutes ↦ rw zero_minutes
  | inr some_minutes ↦
      let small : (60_000_000_000 * ttl) % 18446744073709551616 ≡ 60_000_000_000 * ttl =
        omega arith in
      rw (some_minutes, small)
]
