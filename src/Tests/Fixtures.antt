-- ===== src/Tests/Fixtures.antt =====
-- A server with SETNX that can be down for some attempts, a block, and a handler on them.
use mx_chain_notifier_go.Base.{
  ℕ, zero, suc, ◌≡◌, refl, List, [], ◌∷◌, Bool, true, false, not, ◌||◌, Option, none, some,
  GoString, codes, str_eq, str_eq_refl, if◌then◌else◌, arith,
}
use mx_chain_notifier_go.Errors.{ok, err, GoError, external}
use mx_chain_notifier_go.Data.{
  Header, EventHandler, block_body, TransactionPool, ArgsSaveBlockData, Message,
}
use mx_chain_notifier_go.Metrics.{new_status_metrics}
use mx_chain_notifier_go.Process.EventsInterceptor.{PubkeyConverter, process_block_events}
use mx_chain_notifier_go.Process.EventsHandler.{EventsHandler, World}
use mx_chain_notifier_go.Process.EventsHandler.Serve.{recorder}
use mx_chain_notifier_go.Redis.{RedisClient, new_redis_client_wrapper, redlock_wrapper}
use mx_chain_notifier_go.Redis.LockLaws.{SetNxLaws}

pub record Server : Type 0 where
  pub outages : ℕ
  pub lossy : Bool  -- an attempt that fails has set its key all the same
  pub keys : List GoString

abbrev pub has_key_in : List GoString → GoString → Bool
has_key_in [] k = false
has_key_in (j ∷ js) k = str_eq j k || has_key_in js k

abbrev pub has : Server → GoString → Bool
has s k = has_key_in s.keys k

abbrev pub set_nx_at : ℕ → Bool → List GoString → GoString → (Bool × Option GoError) × Server
set_nx_at zero lossy keys key =
    ((not (has_key_in keys key), none), record { outages = 0; lossy = lossy; keys = key ∷ keys })
set_nx_at (suc n) lossy keys key = (
  (false, some (external 1)),
  record { outages = n; lossy = lossy; keys = if lossy then key ∷ keys else keys },
)

abbrev pub server : RedisClient Server
server = record {
  set_nx = λ key v ttl s. set_nx_at s.outages s.lossy s.keys key;
  ping = λ s. ((codes "PONG", none), s);
}

answers_at :
    (n : ℕ) (lossy : Bool) (keys : List GoString) (key : GoString)
    → (set_nx_at n lossy keys key).0.1 ≡ none
    → (set_nx_at n lossy keys key).0.0 ≡ not (has_key_in keys key)
answers_at zero lossy keys key h = refl
answers_at (suc n) lossy keys key h = absurd (ground (arith, h))

sets_at :
    (n : ℕ) (lossy : Bool) (keys : List GoString) (key : GoString)
    → (set_nx_at n lossy keys key).0.1 ≡ none
    → has (set_nx_at n lossy keys key).1 key ≡ true
sets_at zero lossy keys key h = ground (arith, str_eq_refl key)
sets_at (suc n) lossy keys key h = absurd (ground (arith, h))

stays_at :
    (n : ℕ) (lossy : Bool) (keys : List GoString) (key other : GoString)
    → has_key_in keys other ≡ true
    → has (set_nx_at n lossy keys key).1 other ≡ true
stays_at zero lossy keys key other h = ground (arith, h)
stays_at (suc n) lossy keys key other h = ground (arith, h)

pub server-SetNxLaws : SetNxLaws server has
server-SetNxLaws = record {
  answers = λ key v ttl s. answers_at s.outages s.lossy s.keys key;
  sets = λ key v ttl s. sets_at s.outages s.lossy s.keys key;
  stays = λ key other v ttl s. stays_at s.outages s.lossy s.keys key other;
  ping_stays = λ other s h. h;
}

-- Addresses are taken as they are; an empty one is refused.
abbrev pub converter : PubkeyConverter
converter [] = err (external 2)
converter (b ∷ bs) = ok (b ∷ bs)

abbrev pub header : Header
header = record { shard_id = 1; time_stamp = 1000; nonce = 7; round = 8; epoch = 2 }

abbrev pub transfer : EventHandler
transfer = record {
  address = codes "erd1";
  identifier = codes "transfer";
  topics = [];
  data_bytes = 5 ∷ [];
}

abbrev pub pool : TransactionPool
pool = record {
  transactions =
      (codes "tx1", some (record { transaction = some 11; fee_info = none; execution_order = 0 }))
      ∷ [];
  smart_contract_results = [];
  logs =
      none
      ∷ some (record {
        tx_hash = codes "tx1";
        log = some (record { events = some transfer ∷ none ∷ [] });
      })
      ∷ [];
}

abbrev pub block : ArgsSaveBlockData
block = record {
  header_hash = 171 ∷ 7 ∷ [];
  body = block_body (some 1);
  header = some header;
  signers_indexes = [];
  notarized_headers_hashes = [];
  header_gas_consumption = some 2;
  transactions_pool = some pool;
  altered_accounts = [];
  number_of_shards = 3;
}

-- The same header hash, and no transactions pool.
abbrev pub poolless_block : ArgsSaveBlockData
poolless_block = record block { transactions_pool = none }

abbrev pub handler : EventsHandler Server (List Message)
handler = record {
  locker = redlock_wrapper (new_redis_client_wrapper server) 60_000_000_000;
  publisher = recorder;
  events_interceptor = process_block_events converter;
  check_duplicates = true;
}

-- Two attempts will fail.
abbrev pub start : World Server (List Message)
start = record {
  lock = record { outages = 2; lossy = false; keys = [] };
  outbox = [];
  metrics = new_status_metrics;
  readings = 0;
  slept = 0;
}

abbrev pub clock : ℕ → ℕ
clock n = n
