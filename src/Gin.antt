-- ===== src/Gin.antt =====
-- The calls that the SDK's middleware makes on a `*gin.Context`. Gin is not part of the repository:
-- a record of calls over its context. `Entry` is what the keys of a context hold. A handler is given
-- `c.Next()`, the rest of its chain, as a function.
pub mod Plain
pub mod Chain
use idp_sdk.Common.{ℕ, String, Option}
use idp_sdk.Common.Value.{Fields}

pub record Gin (Entry : Type 0) : Type 1 where
  pub Context : Type 0
  -- request headers, and the response headers that `c.Header` sets
  pub get_header : String → Context → String
  pub header : String → String → Context → Context
  pub set : String → Entry → Context → Context
  pub get : String → Context → Option Entry
  pub json : ℕ → Fields → Context → Context
  pub abort_with_status_json : ℕ → Fields → Context → Context
