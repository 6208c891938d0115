-- ===== src/Lib.antt =====
-- idp-sdk: a Go SDK for services (auth/, server/, logging/, ratelimit/, health/, errors/, validation/,
-- migrate/, observability/ and wrappers of infrastructure clients), modelled component by component.
--
-- How the parts interact. A service builds an Auth from its configuration, which fetches the
-- identity provider's discovery document and sets up a validator; the Gin middleware of auth/
-- takes the bearer token out of a request, validates it and stores the claims in the request's
-- context, and the role guard behind it reads them there. The rate limiter counts calls in Redis
-- and stands in front of a chain of handlers in the same way. The health registry probes the
-- clients of the service concurrently. The server puts a request id and a recovery from panics in
-- front of the middleware that a service adds, among it the request log of logging/, and drains on
-- a signal. errors/ gives the error that handlers answer with, validation/ produces it, and the
-- wrappers return chains of errors that errors.Is and errors.As read.
--
-- The files:
--   Common, Common/*: shared names; Failure has Go's errors as trees of causes, Value what JSON
--     decodes to, Int Go's int64 and durations in nanoseconds, Text strings as lists of characters.
--   Errors: errors/errors.go. as_error is As, is_code is Is; Chain and Status have the theorems.
--   Validation: validation/validation.go. Struct, from the verdict of the validator package.
--   Migrate: migrate/migrate.go. Up, Down, Version, newMigrator, ensureScheme.
--   Gin, Redis: the calls that the SDK makes on a Gin context and on a Redis client, as records;
--     Gin/Plain is a concrete Gin, and Redis/Counters is a Redis that only counts.
--   RateLimit: ratelimit/ratelimit.go. New, Allow, GinMiddleware.
--   Health: health/health.go, health/middleware_gin.go. Register, Check, and the two endpoints.
--   Auth/Claims, Auth/Roles: auth/claims.go, auth/roles.go.
--   Auth/Config, Auth/Errors: auth/config.go, auth/errors.go.
--   Auth/Idp: what auth/ uses of net/http, encoding/json, keyfunc and golang-jwt, as a record.
--   Auth/Provider: auth/provider.go. Auth/Jwks, Auth/Introspection: the two validators.
--   Auth/Service: auth/auth.go, auth/options.go. Auth/Middleware: auth/middleware.go.
--   Endpoint: a service that server/ serves, with an endpoint behind the middleware of auth/, and
--     with the rate limiter in front.
--   HttpClient: database/httpclient/httpclient.go. New, Do, Get, backoff; Net is what it uses of
--     net/http and of the clock. Postgres: database/postgres/postgres.go. New, Check, WithTx.
--   Config: config/config.go. loadStruct and setField; Parsing has what they use of strconv. Presets:
--     the structs of config/presets.go, Load and MustLoad; Defaults, when a service starts with them.
--   Slog: what logging/ and server/ use of log/slog. Gin/Chain: a chain of handlers, and its panics.
--   Logging: logging/logging.go, logging/middleware_gin.go. New, WithTrace, the request log.
--   Server: server/server.go. New, its options and its middleware; Life has Run, with the goroutine
--     that listens, the select and the drain, as a relation of steps; Stack has a request's way
--     through the server's middleware and the request log.
--   Observability: observability/. Setup, Shutdown.
--   Rabbit: messaging/rabbitmq/rabbitmq.go. connect, New, Check, Publish, Close; Loop has the
--     goroutine that reconnects, with Close and the network, as a relation of steps; Consumer has
--     Consume.
--   Kafka: messaging/kafka/kafka.go. NewConsumer and Consume; Producer has the producer, and Probe its
--     check in the health registry.
--   Nats: messaging/nats/nats.go. New, Subscribe, EnsureStream, PublishJS, ConsumeDurable.
--   Verdicts: how messages were handled and settled, the common view of the consumers.
--   ClickHouse: database/clickhouse/clickhouse.go. New, Check, BatchInsert.
--   Cache: cache/redis/redis.go. New, Check, GetJSON, SetJSON, Lock; Store has the map that the JSON
--     cache implements.
-- In each, the child modules have the theorems, named for what they are about, and Tests the runs.
--
-- How code is modelled. A method that changes state takes the state and returns it; a call of a
-- package that is not in the repository is a field of a record that the definitions take, over an
-- abstract state of the outside world. An error is a value, a panic is a value (`panics`, `none`).
-- The clock is an argument. Handlers end in a state or in a panic (Gin/Chain); a middleware takes
-- the rest of its chain, what `c.Next()` runs, as a function. Reflection is a tree of fields. A
-- map is an association list in which an entry replaces the one of its key. Loops over lists are
-- structural; the retry loop recurses on the attempts that are left, retries + 1, so no fuel is
-- used; the loop of the Kafka consumer, which only an error ends, is its first n rounds, for any
-- n; the consumer of RabbitMQ is given the events that reach it; the callback of the durable
-- consumer of NATS runs beside the call that waits, as a relation of steps. The goroutines of a
-- readiness probe write their slots in an order that is an argument, and the theorems hold for all
-- orders.
--
-- Not modelled: contexts and their cancellation in auth/, where a cancelled request is an error of
-- the calls; a handler of NATS that panics, which ends the process; and the wrap-around of
-- int64, which no modelled computation on valid inputs reaches.
mod Common
pub mod Errors
pub mod Validation
pub mod Migrate
pub mod Gin
pub mod Redis
pub mod RateLimit
pub mod Health
pub mod Auth
pub mod HttpClient
pub mod Nats
pub mod Observability
pub mod Postgres
pub mod Cache
pub mod ClickHouse
pub mod Config
pub mod Rabbit
pub mod Kafka
pub mod Slog
pub mod Logging
pub mod Server
pub mod Verdicts
pub mod Endpoint
