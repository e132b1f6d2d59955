-- ===== src/Lib.antt =====
-- The events notifier takes blocks, reverts and finalizations from an observer node, drops the ones
-- that it has seen before, and hands the rest to subscribers over websockets or to RabbitMQ.
--
-- How the parts work together. An observer's payload reaches `payloadHandler` with a topic and a
-- version, which choose a method of one of two preprocessors. The preprocessor decodes the payload and
-- calls the facade, and that calls `eventsHandler`. A block goes through the check for duplicates (a
-- lock service, which is Redis with SETNX), then `eventsInterceptor` takes the events and transactions
-- out of it, and the handler sends four messages to the publisher. The publisher's handler is either
-- the hub, which calls the websocket dispatchers according to their subscriptions, or the RabbitMQ
-- publisher, which publishes each kind of message on an exchange of its own.
--
-- Which file models which part (paths are from the repository's root):
--   Base            lists, strings (a Go string is the list of its bytes), maps (an association list
--                   in the order of a walk over the Go map, each key once)
--   Errors          the error values, and results: a value, an error or a panic
--   Common          common/constants.go
--   Data            data/*.go, and the fields of mx-chain-core-go's structs that the program reads
--   Metrics         metrics/statusMetrics.go: addresses and a store, as GetAll copies pointers;
--                   Metrics.Prometheus has metrics/prometheusMetrics.go and its caller
--   Dispatcher      dispatcher/subscription.go: SubscriptionMapper with every operation
--   Config          config/config.go
--   Filters         filters/eventsFilter.go: MatchEvent; Filters.Bloom has filters/bloom.go
--   Hub             dispatcher/hub/commonHub.go: commonHub; the result of a publication is the list of
--                   the calls on dispatchers
--   Process.LockKeys, Process.Interface   the keys of process/eventsHandler.go, and process/interface.go
--   Process.EventsInterceptor   process/eventsInterceptor.go
--   Process.EventsHandler       process/eventsHandler.go: each handler takes and gives a World, which
--                   has the state of the lock service, the publisher's state, the metrics, the number
--                   of clock readings and the milliseconds slept;
--                   Process.EventsHandler.Cluster has several notifiers on one lock service, as a
--                   step relation of their goroutines
--   Process.Preprocess          process/preprocess/*.go
--   Process.PayloadHandler      process/payloadHandler.go
--   Process.Publisher           process/publisher.go: a step relation of the loop, the goroutines that
--                   wait in a Broadcast, and the calls of Run and Close
--   Facade          facade/notifierFacade.go, and the payload handler of factory/processFactory.go
--   Api             api/groups/eventsGroup.go: the three endpoints and the payload version, with the
--                   rules of strconv.Atoi; Api.Groups has api/groups: the routes of each group and
--                   its authentication, Api.Status its metrics endpoints; Api.WebServer has api/gin,
--                   where the result of a run is the list of the calls of gin's Handle
--   Redis           redis/redlock.go, redis/redisClient.go, redis/connection.go and
--                   disabled/disabledRedlock.go
--   Rabbit.Client   rabbitmq/rabbitClient.go: the connection and the publishing loop
--   Rabbit.Publisher            rabbitmq/publisher.go
--   WebSocket       dispatcher/ws: the upgrade of a connection, what is sent for each call of the
--                   hub, and what the read pump does with the client's messages; WebSocket.Pumps is a
--                   step relation of the two pumps and of a publication, with the hub's lock
--   Factory         factory: each component by its configuration, and the disabled hub and websocket
--                   handler of disabled; Factory.Services has the lock service, the interceptor, the
--                   web server and the observer's connector
--   Notifier        notifier/notifierRunner.go: Start and the shutdown, as a chain of calls on the
--                   state of the system that returns at the first error
--   Logging         common/logging/fileLogger.go: a step relation of the calls and the goroutine
--   Cmd             cmd/notifier/main.go: the flags, the configuration, the life of the process
--   Tests           concrete inputs for the theorems
--
-- Conventions. The nil slice and the empty slice are one value, as are the nil map and the empty map. A
-- pointer or an interface that may be nil is an Option. Logging is left out. The mutexes of the hub, of
-- the mapper, of the metrics and of the RabbitMQ client make their operations atomic, so the model runs
-- one operation after the other. time.Duration, int and uint64 values are kept modulo 2^64 where the
-- code computes with them.
--
-- Fuel. The loops of the code that have no bound take fuel: `tryCheckProcessedWithRetry`, `Publish` of
-- the RabbitMQ client, `Reconnect` and `ReopenChannel`. The result `none` means that the loop still
-- runs. For each of them there is a theorem that fuel above the number of failed attempts is enough.
--
-- Parameters. Code outside the repository is a parameter: the go-redis client (SETNX and PING), the
-- amqp package with the network and the broker, the marshallers with encoding/json and the header
-- creators, the public key converter, and the topics of mx-chain-core-go. What a theorem needs of the
-- redis client is the record SetNxLaws: a call without an error answers whether the key was new and
-- sets it, and keys stay (the time to live is longer than the run); a call with an error may have set
-- its key or not.
--
-- The other parameters are the gin engine (the base path of a group, and the order in which Go walks
-- over the map of groups), the shutdown of the HTTP server, the hosts of mx-chain-communication-go, the
-- cli package, the reading of toml files, and the murmur3 hash.
--
-- Not modelled: the deadlines of the websocket connection, which end a pump like any error; the
-- handler of the hub group and ServeHTTP of the facade, which only pass a request on; the text format
-- of Prometheus, which a package prints (a parameter, as is the conversion to float64, which rounds
-- above 2^53); the floating point estimate of the Bloom filter's size; the finalizer that closes a log
-- file nobody can reach; the test doubles, the tools and the integration tests, but for the version
-- header of their client.
pub mod Base
pub mod Errors
pub mod Common
pub mod Data
pub mod Metrics
pub mod Dispatcher
pub mod Filters
pub mod Hub
pub mod Process
pub mod Redis
pub mod Config
pub mod Facade
pub mod Api
pub mod Rabbit
pub mod WebSocket
pub mod Factory
pub mod Notifier
pub mod Logging
pub mod Cmd
pub mod Tests
