-- ===== src/Redis.antt =====
-- redis/redlock.go, redis/redisClient.go and disabled/disabledRedlock.go: the lock services.
pub mod LockLaws
use mx_chain_notifier_go.Base.{
  ℕ, ◌*◌, ◌%◌, Bool, true, false, ◌&&◌, Option, none, some, GoString, codes, str_eq, ◌==◌,
  if◌then◌else◌,
}
use mx_chain_notifier_go.Errors.{
  Result, ok, err, panicked, ◌>>=◌, require, refuse_if, ◌>>◌, GoError, wrapped, nil_redlock_client,
  zero_value_received, redis_connection_failed,
}
use mx_chain_notifier_go.Process.Interface.{LockService}

-- The go-redis client, over the state of the connection and the server: SETNX and PING.
pub record RedisClient (S : Type 0) : Type 0 where
  pub set_nx : GoString → Bool → ℕ → S → (Bool × Option GoError) × S
  pub ping : S → (GoString × Option GoError) × S

-- redis.RedLockClient
pub record RedLockClient (S : Type 0) : Type 0 where
  pub set_entry : GoString → Bool → ℕ → S → (Bool × Option GoError) × S
  pub is_connected : S → Bool × S

abbrev pub pong_value : GoString
pong_value = codes "PONG"

abbrev no_error : Option GoError → Bool
no_error none = true
no_error (some e) = false

-- redlockWrapper: the client, and the time to live as a time.Duration in nanoseconds, an int64
-- given by its 64-bit pattern.
unfoldable pub redlock_ttl : ℕ → ℕ
redlock_ttl ttl_in_minutes = (60_000_000_000 * ttl_in_minutes) % 18446744073709551616

module _ {S : Type 0} where
  -- `redisClientWrapper.IsConnected`
  unfoldable pub is_connected_by_ping : RedisClient S → S → Bool × S
  is_connected_by_ping redis s =
      let ((pong, e), s') = redis.ping s in (no_error e && str_eq pong pong_value, s')

  -- `NewRedisClientWrapper`
  unfoldable pub new_redis_client_wrapper : RedisClient S → RedLockClient S
  unfolding is_connected_by_ping
  new_redis_client_wrapper redis = record {
    set_entry = redis.set_nx;
    is_connected = is_connected_by_ping redis;
  }

  unfoldable pub redlock_wrapper : RedLockClient S → ℕ → LockService S
  redlock_wrapper client ttl = record {
    is_event_processed = λ block_hash s. client.set_entry block_hash true ttl s;
    has_connection = client.is_connected;
  }

  -- `NewRedlockWrapper`
  unfoldable pub new_redlock_wrapper : Option (RedLockClient S) → ℕ → Result (LockService S)
  unfolding redlock_ttl redlock_wrapper
  new_redlock_wrapper client ttl_in_minutes = do
    c ← require client nil_redlock_client
    refuse_if (ttl_in_minutes == 0) (wrapped zero_value_received (codes " for TTL in minutes"))
    ok (redlock_wrapper c (redlock_ttl ttl_in_minutes))

  -- `CreateSimpleClient` and `CreateFailoverClient` after the client is made: refused unless connected.
  unfoldable pub connected_client : RedisClient S → S → Result (RedLockClient S) × S
  unfolding new_redis_client_wrapper
  connected_client redis s =
      let rc = new_redis_client_wrapper redis in
      let (connected, s') = rc.is_connected s in
      (if connected then ok rc else err redis_connection_failed, s')

  -- disabledRedlockWrapper
  unfoldable pub disabled_redlock_wrapper : LockService S
  disabled_redlock_wrapper = record {
    is_event_processed = λ block_hash s. ((true, none), s);
    has_connection = λ s. (true, s);
  }
