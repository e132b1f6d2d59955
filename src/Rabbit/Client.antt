-- ===== src/Rabbit/Client.antt =====
-- rabbitmq/rabbitClient.go: the connection, and the loop that publishes until an acknowledgement.
--
-- A connection or a channel of the amqp package is a number; the constructor's nil pointers are 0.
-- The Go channels that a connection or a channel notifies go with it, and are received from by
-- `receive`.
pub mod Delivery
use mx_chain_notifier_go.Base.{
  ℕ, zero, suc, ◌+◌, Bool, true, false, Option, none, some, GoString, Bytes,
}
use mx_chain_notifier_go.Errors.{Result, ok, err, GoError}

-- amqp.Publishing, with where it is to be published.
pub record Publishing : Type 0 where
  pub exchange : GoString
  pub key : GoString
  pub mandatory : Bool
  pub immediate : Bool
  pub body : Bytes

-- What the `select` of `Publish` receives first. A closed Go channel gives the nil error.
pub data Signal : Type 0 where
  acked : ℕ → Signal
  nacked : ℕ → Signal
  conn_failed : Option GoError → Signal
  chan_failed : Option GoError → Signal

-- The amqp package over the state of the network and the broker.
pub record Amqp (S : Type 0) : Type 0 where
  pub dial : GoString → S → (ℕ × Option GoError) × S
  pub channel : ℕ → S → (ℕ × Option GoError) × S
  pub confirm : ℕ → Bool → S → Option GoError × S
  pub exchange_declare :
      ℕ → GoString → GoString → Bool → Bool → Bool → Bool → S → Option GoError × S
  pub publish : ℕ → Publishing → S → Option GoError × S
  pub receive : ℕ → ℕ → S → Signal × S
  pub close_channel : ℕ → S → Option GoError × S
  pub close_connection : ℕ → S → Option GoError × S

-- rabbitMqClient, with the state of the package and the milliseconds slept.
pub record RabbitMqClient (S : Type 0) : Type 0 where
  pub url : GoString
  pub conn : ℕ
  pub ch : ℕ
  pub amqp : S
  pub slept : ℕ

abbrev pub reconnect_retry_ms : ℕ
reconnect_retry_ms = 500

module _ {S : Type 0} (a : Amqp S) where
  unfoldable pub open_channel : RabbitMqClient S → Option GoError × RabbitMqClient S
  open_channel rc =
      let ((ch, e), s) = a.channel rc.conn rc.amqp in
      elim e [
        | some error ↦ (some error, record rc { amqp = s })
        | none ↦ let (e', s') = a.confirm ch false s in (e', record rc { ch = ch; amqp = s' })
      ]

  unfoldable pub connect : RabbitMqClient S → Option GoError × RabbitMqClient S
  unfolding open_channel
  connect rc =
      let ((conn, e), s) = a.dial rc.url rc.amqp in
      elim e [
        | some error ↦ (some error, record rc { amqp = s })
        | none ↦ open_channel (record rc { conn = conn; amqp = s })
      ]

  -- `NewRabbitMQClient`
  unfoldable pub new_rabbit_mq_client : GoString → S → Result (RabbitMqClient S) × S
  unfolding connect
  new_rabbit_mq_client url s =
      let (e, rc) = connect (record { url = url; conn = 0; ch = 0; amqp = s; slept = 0 }) in
      (elim e [ some error ↦ err error | none ↦ ok rc ], rc.amqp)

  -- `ExchangeDeclare`, with isDurable, autoDelete, isInternal and noWait.
  unfoldable pub exchange_declare :
      GoString → GoString → RabbitMqClient S → Option GoError × RabbitMqClient S
  exchange_declare name kind rc =
      let (e, s) = a.exchange_declare rc.ch name kind true false false false rc.amqp in
      (e, record rc { amqp = s })

  abbrev pub rest : RabbitMqClient S → RabbitMqClient S
  rest rc = record rc { slept = rc.slept + reconnect_retry_ms }

  -- The loop of `Reconnect` and of `ReopenChannel`, with fuel: sleep, try, and again on an error.
  unfoldable pub until_done :
      ℕ
      → (RabbitMqClient S → Option GoError × RabbitMqClient S)
      → RabbitMqClient S
      → Option (RabbitMqClient S)
  until_done zero try rc = none
  until_done (suc fuel) try rc =
      let (e, rc') = try (rest rc) in
      elim e [ none ↦ some rc' | some error ↦ until_done fuel try rc' ]

  unfoldable pub reconnect : ℕ → RabbitMqClient S → Option (RabbitMqClient S)
  unfolding until_done connect
  reconnect fuel rc = until_done fuel connect rc

  unfoldable pub reopen_channel : ℕ → RabbitMqClient S → Option (RabbitMqClient S)
  unfolding until_done open_channel
  reopen_channel fuel rc = until_done fuel open_channel rc

  -- What an iteration of `Publish` does before the next one.
  unfoldable pub recover : ℕ → Signal → RabbitMqClient S → Option (RabbitMqClient S)
  unfolding reconnect reopen_channel
  recover fuel (acked tag) rc = some rc
  recover fuel (nacked tag) rc = some rc
  recover fuel (conn_failed none) rc = some rc
  recover fuel (conn_failed (some error)) rc = reconnect fuel rc
  recover fuel (chan_failed none) rc = some rc
  recover fuel (chan_failed (some error)) rc = reopen_channel fuel rc

  abbrev pub is_ack : Signal → Bool
  is_ack (acked tag) = true
  is_ack (nacked tag) = false
  is_ack (conn_failed e) = false
  is_ack (chan_failed e) = false

  -- `Publish`, with fuel: it returns the error of the attempt that was acknowledged.
  unfoldable pub publish_confirmed :
      ℕ → Publishing → RabbitMqClient S → Option (Option GoError × RabbitMqClient S)
  unfolding recover
  publish_confirmed zero msg rc = none
  publish_confirmed (suc fuel) msg rc =
      let (e, s) = a.publish rc.ch msg rc.amqp in
      let (signal, s') = a.receive rc.conn rc.ch s in
      let rc' = record rc { amqp = s' } in
      elim (is_ack signal) [
        | true ↦ some (e, rc')
        | false ↦ elim (recover fuel signal rc') [
          | none ↦ none
          | some rc'' ↦ publish_confirmed fuel msg rc''
        ]
      ]

  unfoldable pub close : RabbitMqClient S → RabbitMqClient S
  close rc =
      let (e, s) = a.close_channel rc.ch rc.amqp in
      let (e', s') = a.close_connection rc.conn s in record rc { amqp = s' }
