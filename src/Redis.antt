-- ===== src/Redis.antt =====
-- The calls of go-redis that ratelimit/ratelimit.go and cache/redis/redis.go make. The client and
-- the server are not part of the repository: a record of calls over the server's state, which other
-- clients share. Durations are in nanoseconds.
pub mod Counters
use idp_sdk.Common.{String, Bool, ℤ, Option, GoError, Result}

pub record Redis : Type 1 where
  pub State : Type 0
  pub incr : String → State → Result ℤ × State
  pub expire : String → ℤ → State → Option GoError × State
  pub ttl : String → State → Result ℤ × State
  pub ping : State → Option GoError × State
  pub get : String → State → Result String × State
  pub put : String → String → ℤ → State → Option GoError × State
  pub put_nx : String → String → ℤ → State → Result Bool × State
  pub del : String → State → Option GoError × State
