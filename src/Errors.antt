-- ===== src/Errors.antt =====
-- The error values of common/errors.go and of the packages' errors.go files, and what a call
-- returns: a value, an error, or a panic that unwinds it.
use mx_chain_notifier_go.Base.{◌≡◌, refl, arith, ℕ, Bool, true, false, Option, none, some, GoString}

pub data GoError : Type 0 where
  -- common
  invalid_api_type invalid_connector_type invalid_pub_key_converter_type : GoError
  invalid_dispatch_type invalid_redis_conn_type received_empty_events : GoError
  nil_marshaller nil_internal_marshaller nil_facade_handler : GoError
  nil_status_metrics_handler wrong_type_assertion loop_already_started : GoError
  -- process
  nil_lock_service nil_publisher_service nil_events_interceptor nil_publisher_handler : GoError
  nil_pub_key_converter nil_block_events nil_transactions_pool nil_block_body : GoError
  nil_block_header nil_data_processor invalid_payload_type invalid_payload_version : GoError
  -- process/preprocess
  nil_block_data nil_transaction_pool nil_header_gas_consumption : GoError
  -- dispatcher, dispatcher/hub, dispatcher/ws, facade
  nil_event_filter nil_subscription_mapper nil_dispatcher nil_ws_conn nil_ws_upgrader : GoError
  nil_events_handler nil_ws_handler : GoError
  -- api, notifier
  nil_payload_handler nil_http_server nil_configs : GoError
  invalid_buffer_size : ℕ → GoError
  -- common/logging
  invalid_log_file_min_life_span file_logging_process_is_closed invalid_file : GoError
  -- rabbitmq, redis
  nil_rabbit_mq_client invalid_rabbit_mq_exchange_name invalid_rabbit_mq_exchange_type : GoError
  nil_redlock_client zero_value_received redis_connection_failed : GoError
  -- what third-party code returns, and `fmt.Errorf("%w ...", err)`
  external : ℕ → GoError
  wrapped : GoError → GoString → GoError

pub data Result {ℓ} (A : Type ℓ) : Type ℓ where
  ok : A → Result A
  err : GoError → Result A
  panicked : Result A

-- What follows a call in a chain: it runs on the value, and an error or a panic goes past it.
infixl 5 ◌>>=◌
abbrev pub ◌>>=◌ {ℓ κ} : {X : Type ℓ} {Y : Type κ} → Result X → (X → Result Y) → Result Y
panicked >>= next = panicked
err e >>= next = err e
ok x >>= next = next x

infixl 5 ◌>>◌
abbrev pub ◌>>◌ {κ} : {Y : Type κ} → Result (Unit {0}) → Result Y → Result Y
check >> next = check >>= λ u. next

-- `if bad { return e }`.
abbrev pub refuse_if : Bool → GoError → Result (Unit {0})
refuse_if true e = err e
refuse_if false e = ok tt

-- `if check.IfNil(x) { return e }`, with the value for what follows.
abbrev pub require {ℓ} : {A : Type ℓ} → Option A → GoError → Result A
require none e = err e
require (some a) e = ok a

-- Inversion of a chain that succeeded.
pub bind_ok {ℓ κ} :
    {X : Type ℓ} {Y : Type κ} (first : Result X) (next : X → Result Y) {y : Y}
    → first >>= next ≡ ok y
    → (x : X) × (first ≡ ok x) × (next x ≡ ok y)
bind_ok panicked next h = cc
bind_ok (err e) next h = cc
bind_ok (ok x) next h = (x, refl, h)

pub require_ok {ℓ} :
    {A : Type ℓ} (o : Option A) (e : GoError) {a : A} → require o e ≡ ok a → o ≡ some a
require_ok none e h = cc
require_ok (some a) e h = ground arith
