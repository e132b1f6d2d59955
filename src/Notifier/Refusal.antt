-- ===== src/Notifier/Refusal.antt =====
-- notifier/notifierRunner.go: a publisher type that is not known.
use mx_chain_notifier_go.Base.{◌≡◌, ◌≢◌, refl, GoString, codes, str_eq_iff, arith}
use mx_chain_notifier_go.Errors.{err, invalid_api_type}
use mx_chain_notifier_go.Common.{message_queue_publisher_type, ws_publisher_type}
use mx_chain_notifier_go.Config.{Configs}
use mx_chain_notifier_go.Factory.{create_hub}
use mx_chain_notifier_go.Notifier.{Packages, System, on_redis, start}
use mx_chain_notifier_go.Notifier.Setup.{lift, After, bind-After, same_state}

module _ {R A N P : Type 0} (env : Packages R A N P) where
  -- Nothing has been done but for calls of redis.
  abbrev pub OnlyRedis : System R A N P → System R A N P → Type 0
  OnlyRedis s s' =
      (s'.amqp ≡ s.amqp)
      × (s'.net ≡ s.net)
      × (s'.publisher ≡ s.publisher)
      × (s'.web_server ≡ s.web_server)

  create_hub-unknown :
      (t : GoString) → t ≢ codes "rabbitmq" → t ≢ codes "ws" → create_hub t ≡ err invalid_api_type
  unfolding create_hub
  create_hub-unknown t not_rabbit not_ws = ground (
    arith,
    not_rabbit,
    not_ws,
    str_eq_iff t message_queue_publisher_type,
    str_eq_iff t ws_publisher_type,
  )

  -- A publisher type other than "rabbitmq" and "ws" makes `Start` fail; before that no broker is
  -- called, no websocket host is made, and neither a publisher nor a web server is started. The
  -- connection to redis is looked for all the same.
  pub start-refused :
      (configs : Configs) (s : System R A N P)
      → configs.flags.publisher_type ≢ codes "rabbitmq"
      → configs.flags.publisher_type ≢ codes "ws"
      → After (λ u s'. ⊥) (OnlyRedis s) (start env configs s)
  unfolding start lift on_redis
  start-refused configs s not_rabbit not_ws =
      bind-After (OnlyRedis s) (λ x. OnlyRedis s) (λ u s'. ⊥) (lift _) _ s
        (same_state (OnlyRedis s) _ s (refl, refl, refl, refl))
        (λ external s1 h1.
          bind-After (OnlyRedis s) (λ x. OnlyRedis s) (λ u s'. ⊥) (on_redis _) _ s1
            (same_state (OnlyRedis s) _ _ h1)
            (λ lock s2 h2.
              bind-After (OnlyRedis s) (λ x s'. ⊥) (λ u s'. ⊥) (lift _) _ s2
                (rw (create_hub-unknown configs.flags.publisher_type not_rabbit not_ws)
                  (unfold After in h2))
                (λ hub s3 h3. absurd h3)))
