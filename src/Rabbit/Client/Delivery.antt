-- ===== src/Rabbit/Client/Delivery.antt =====
-- rabbitmq/rabbitClient.go: `Publish` returns on an acknowledgement, and only then.
use mx_chain_notifier_go.Base.{
  ℕ, zero, suc, ◌+◌, ◌*◌, ◌<◌, ◌≡◌, refl, inl, inr, ◌⊎◌, false, Option, none, some, arith,
  Option-cases,
}
use mx_chain_notifier_go.Errors.{GoError}
use mx_chain_notifier_go.Rabbit.Client.{
  Publishing, Signal, acked, nacked, conn_failed, chan_failed, Amqp, RabbitMqClient, open_channel,
  connect, rest, until_done, reconnect, reopen_channel, recover, is_ack, publish_confirmed,
  reconnect_retry_ms,
}

-- `Repaired try rc n rc'`: after `n` failures of `try`, each attempt behind a sleep, one succeeds.
pub data Repaired {S : Type 0} (a : Amqp S)
    (try : RabbitMqClient S → Option GoError × RabbitMqClient S)
    : RabbitMqClient S → ℕ → RabbitMqClient S → Type 0 where
  done : {rc rc' : RabbitMqClient S} → try (rest a rc) ≡ (none, rc') → Repaired a try rc 0 rc'
  again :
      {rc rc' rc'' : RabbitMqClient S} {n : ℕ} (e : GoError)
      → try (rest a rc) ≡ (some e, rc')
      → Repaired a try rc' n rc''
      → Repaired a try rc (suc n) rc''

-- `Recovered rc signal n tries rc'`: what a signal that is no acknowledgement leads to, with `n`
-- failures among the `tries` attempts to connect or to open a channel.
pub data Recovered {S : Type 0} (a : Amqp S) (rc : RabbitMqClient S)
    : Signal → ℕ → ℕ → RabbitMqClient S → Type 0 where
  after_nack : (tag : ℕ) → Recovered a rc (nacked tag) 0 0 rc
  after_conn_closed : Recovered a rc (conn_failed none) 0 0 rc
  after_chan_closed : Recovered a rc (chan_failed none) 0 0 rc
  after_reconnect :
      {rc' : RabbitMqClient S} {n : ℕ} (e : GoError)
      → Repaired a (connect a) rc n rc'
      → Recovered a rc (conn_failed (some e)) n (suc n) rc'
  after_reopen :
      {rc' : RabbitMqClient S} {n : ℕ} (e : GoError)
      → Repaired a (open_channel a) rc n rc'
      → Recovered a rc (chan_failed (some e)) n (suc n) rc'

-- `Delivered msg rc n tries e rc'`: the message is published again and again until an attempt, whose
-- error is `e`, is acknowledged.
pub data Delivered {S : Type 0} (a : Amqp S) (msg : Publishing)
    : RabbitMqClient S → ℕ → ℕ → Option GoError → RabbitMqClient S → Type 0 where
  confirmed :
      {rc : RabbitMqClient S} (e : Option GoError) (tag : ℕ) (s s' : S)
      → a.publish rc.ch msg rc.amqp ≡ (e, s)
      → a.receive rc.conn rc.ch s ≡ (acked tag, s')
      → Delivered a msg rc 0 0 e (record rc { amqp = s' })
  retried :
      {rc rc' rc'' : RabbitMqClient S} {signal : Signal} {n k tries tries' : ℕ}
      {e' : Option GoError} (e : Option GoError) (s s' : S)
      → a.publish rc.ch msg rc.amqp ≡ (e, s)
      → a.receive rc.conn rc.ch s ≡ (signal, s')
      → Recovered a (record rc { amqp = s' }) signal k tries rc'
      → Delivered a msg rc' n tries' e' rc''
      → Delivered a msg rc (suc (k + n)) (tries + tries') e' rc''

module _ {S : Type 0} (a : Amqp S) where
  until_done-Repaired :
      (try : RabbitMqClient S → Option GoError × RabbitMqClient S) (fuel : ℕ)
      (rc : RabbitMqClient S) {n : ℕ} {rc' : RabbitMqClient S}
      → Repaired a try rc n rc'
      → n < fuel
      → until_done a fuel try rc ≡ some rc'
  unfolding until_done
  until_done-Repaired try zero rc r h = absurd (omega arith)
  until_done-Repaired try (suc fuel) rc (done p) h = ground (arith, p)
  until_done-Repaired try (suc fuel) rc (again {rc' = rc'} e p r) h =
      ground (arith, p, until_done-Repaired try fuel rc' r (omega arith))

  recover-Recovered :
      (fuel : ℕ) (signal : Signal) (rc : RabbitMqClient S) {n tries : ℕ} {rc' : RabbitMqClient S}
      → Recovered a rc signal n tries rc'
      → n < fuel
      → (is_ack a signal ≡ false) × (recover a fuel signal rc ≡ some rc')
  unfolding recover reconnect reopen_channel
  recover-Recovered fuel signal rc (after_nack tag) h = (refl, refl)
  recover-Recovered fuel signal rc after_conn_closed h = (refl, refl)
  recover-Recovered fuel signal rc after_chan_closed h = (refl, refl)
  recover-Recovered fuel signal rc (after_reconnect e r) h =
      (refl, until_done-Repaired (connect a) fuel rc r h)
  recover-Recovered fuel signal rc (after_reopen e r) h =
      (refl, until_done-Repaired (open_channel a) fuel rc r h)

  open_channel-slept : (rc : RabbitMqClient S) → (open_channel a rc).1.slept ≡ rc.slept
  unfolding open_channel
  open_channel-slept rc = ground arith

  connect-slept : (rc : RabbitMqClient S) → (connect a rc).1.slept ≡ rc.slept
  unfolding connect open_channel
  connect-slept rc = ground arith

  Repaired-slept :
      (try : RabbitMqClient S → Option GoError × RabbitMqClient S)
      → ((rc : RabbitMqClient S) → (try rc).1.slept ≡ rc.slept)
      → (rc : RabbitMqClient S) {n : ℕ} {rc' : RabbitMqClient S} → Repaired a try rc n rc'
      → rc'.slept ≡ rc.slept + reconnect_retry_ms * suc n
  Repaired-slept try same rc (done {rc' = rc'} p) = ground (arith, p, same (rest a rc))
  Repaired-slept try same rc (again {rc' = rc'} {n = n} e p r) =
      let later = Repaired-slept try same rc' r in
      let first : rc'.slept ≡ rc.slept + reconnect_retry_ms = ground (arith, p, same (rest a rc)) in
      omega (arith, later, first)

  Recovered-slept :
      (signal : Signal) (rc : RabbitMqClient S) {n tries : ℕ} {rc' : RabbitMqClient S}
      → Recovered a rc signal n tries rc'
      → rc'.slept ≡ rc.slept + reconnect_retry_ms * tries
  Recovered-slept signal rc (after_nack tag) = omega arith
  Recovered-slept signal rc after_conn_closed = omega arith
  Recovered-slept signal rc after_chan_closed = omega arith
  Recovered-slept signal rc (after_reconnect e r) = Repaired-slept (connect a) connect-slept rc r
  Recovered-slept signal rc (after_reopen e r) =
      Repaired-slept (open_channel a) open_channel-slept rc r

  -- When attempts fail or are not acknowledged and one is acknowledged in the end, then with fuel
  -- above the number of failures `Publish` ends, in the client state of that acknowledgement and with
  -- the error of that attempt, after 500 ms for each attempt to reconnect or to reopen the channel.
  pub publish_confirmed-Delivered :
      (fuel : ℕ) (msg : Publishing) (rc : RabbitMqClient S) {n tries : ℕ} {e : Option GoError}
      {rc' : RabbitMqClient S}
      → Delivered a msg rc n tries e rc'
      → n < fuel
      → (publish_confirmed a fuel msg rc ≡ some (e, rc'))
        × (rc'.slept ≡ rc.slept + reconnect_retry_ms * tries)
  unfolding publish_confirmed
  publish_confirmed-Delivered zero msg rc d h = absurd (omega arith)
  publish_confirmed-Delivered (suc fuel) msg rc (confirmed e tag s s' p q) h =
      (ground (arith, p, q), omega arith)
  publish_confirmed-Delivered (suc fuel) msg rc
        (retried {rc' = rc1} {signal = signal} {n = n} {k = k} e s s' p q r d) h =
      let (no_ack, recovered) =
        recover-Recovered fuel signal (record rc { amqp = s' }) r (omega arith) in
      let (found, slept) = publish_confirmed-Delivered fuel msg rc1 d (omega arith) in
      (
        ground (arith, p, q, no_ack, recovered, found),
        omega (arith, slept, Recovered-slept signal (record rc { amqp = s' }) r),
      )

  until_done_sound :
      (try : RabbitMqClient S → Option GoError × RabbitMqClient S) (fuel : ℕ)
      (rc rc' : RabbitMqClient S)
      → until_done a fuel try rc ≡ some rc'
      → (n : ℕ) × Repaired a try rc n rc'
  unfolding until_done
  until_done_sound try zero rc rc' h = cc
  until_done_sound try (suc fuel) rc rc' h = elim (Option-cases (try (rest a rc)).0) [
    | inl e ↦ (0, done (ground (arith, e, h)))
    | inr (error, e) ↦
        let (n, r) = until_done_sound try fuel (try (rest a rc)).1 rc' (ground (arith, e, h)) in
        (suc n, again error (ground (arith, e)) r)
  ]

  recover_sound :
      (fuel : ℕ) (signal : Signal) (rc rc' : RabbitMqClient S)
      → is_ack a signal ≡ false
      → recover a fuel signal rc ≡ some rc'
      → (n : ℕ) × (tries : ℕ) × Recovered a rc signal n tries rc'
  unfolding recover reconnect reopen_channel
  recover_sound fuel (acked tag) rc rc' unacked h = cc
  recover_sound fuel (nacked tag) rc rc' unacked h =
      let same : rc ≡ rc' = ground arith in (0, 0, rw (← same) (after_nack tag))
  recover_sound fuel (conn_failed none) rc rc' unacked h =
      let same : rc ≡ rc' = ground arith in (0, 0, rw (← same) after_conn_closed)
  recover_sound fuel (conn_failed (some e)) rc rc' unacked h =
      let (n, r) = until_done_sound (connect a) fuel rc rc' h in (n, suc n, after_reconnect e r)
  recover_sound fuel (chan_failed none) rc rc' unacked h =
      let same : rc ≡ rc' = ground arith in (0, 0, rw (← same) after_chan_closed)
  recover_sound fuel (chan_failed (some e)) rc rc' unacked h =
      let (n, r) = until_done_sound (open_channel a) fuel rc rc' h in (n, suc n, after_reopen e r)

  -- `Publish` returns only by an acknowledgement: whatever it returns was confirmed by the broker,
  -- after attempts that were not.
  pub publish_confirmed_sound :
      (fuel : ℕ) (msg : Publishing) (rc rc' : RabbitMqClient S) (e : Option GoError)
      → publish_confirmed a fuel msg rc ≡ some (e, rc')
      → (n : ℕ) × (tries : ℕ) × Delivered a msg rc n tries e rc'
  unfolding publish_confirmed
  publish_confirmed_sound zero msg rc rc' e h = cc
  publish_confirmed_sound (suc fuel) msg rc rc' e h =
      let (error, s) = a.publish rc.ch msg rc.amqp in
      let (signal, s') = a.receive rc.conn rc.ch s in
      let rc1 : RabbitMqClient S = record rc { amqp = s' } in
      elim (signal_cases signal) [
        | inl (tag, p) ↦
            let same_error : error ≡ e = ground (arith, p, h) in
            let same_client : rc1 ≡ rc' = ground (arith, p, h) in
            (
              0,
              0,
              rw (← same_error, ← same_client) (confirmed error tag s s' refl (ground (arith, p))),
            )
        | inr p ↦ elim (Option-cases (recover a fuel signal rc1)) [
          | inl none_yet ↦ absurd (ground (arith, p, none_yet, h))
          | inr (rc2, q) ↦
              let (n, tries, d) =
                publish_confirmed_sound fuel msg rc2 rc' e (ground (arith, p, q, h)) in
              let (k, tries', r) = recover_sound fuel signal rc1 rc2 p q in
              (suc (k + n), tries' + tries, retried error s s' refl refl r d)
        ]
      ]
    where
      signal_cases : (s : Signal) → ((tag : ℕ) × (s ≡ acked tag)) ⊎ (is_ack a s ≡ false)
      signal_cases (acked tag) = inl (tag, refl)
      signal_cases (nacked tag) = inr refl
      signal_cases (conn_failed x) = inr refl
      signal_cases (chan_failed x) = inr refl
