-- ===== src/RateLimit.antt =====
-- ratelimit/ratelimit.go: the fixed-window limiter over Redis, and its middleware.
-- The clock is an argument: `now` is `time.Now().Unix()`.
pub mod Budget
pub mod Middleware
mod Tests
use idp_sdk.Common.{
  ◌^◌, ◌%◌, ltb, ◌-◌, ◌*◌, ℕ, zero, suc, ◌+◌, ◌/◌, String, Bool, true, false, Option, none, some,
  List, [], ◌∷◌, ℤ, pos, negsuc, ◌==◌, ◌<>◌, if◌then◌else◌, GoError, Result, ok, err,
}
use idp_sdk.Common.Decimal.{decimal}
use idp_sdk.Common.Failure.{wrap_with}
use idp_sdk.Common.Int.{◌-ℤ◌, ltb_ℤ}
use idp_sdk.Common.Value.{text, end, field}
use idp_sdk.Gin.{Gin}
use idp_sdk.Gin.Chain.{Ended, finished, panicked}
use idp_sdk.Redis.{Redis}

pub record Limiter : Type 0 where
  pub limit : ℤ
  pub window : ℤ
  pub prefix : String

unfoldable pub new : ℤ → ℤ → String → Limiter
new limit window key_prefix = record {
  limit = limit;
  window = window;
  prefix = if key_prefix == "" then "ratelimit" else key_prefix;
}

-- The value of Go's panic.
abbrev pub divide_by_zero : String
divide_by_zero = "runtime error: integer divide by zero"

-- What `Allow` returns. `panics` is Go's division by zero.
pub data Decision : Type 0 where
  panics : Decision
  failed : GoError → Decision
  decided : (allowed : Bool) (remaining retry_after : ℤ) → Decision

-- The greatest power of 2 up to n, from p on: 33 rounds reach every number of seconds.
unfoldable pub top_power : ℕ → ℕ → ℕ → ℕ
top_power zero p n = p
top_power (suc rounds) p n =
    let rest = top_power rounds (2 * p) n in if ltb n (2 * p) then p else rest

-- `int64(d.Seconds())` for the size of a duration: the sum of the seconds and the fraction is a
-- float64, which becomes the next second where that is closer than half a unit in the last place.
unfoldable pub seconds_of : ℕ → ℕ
unfolding top_power
seconds_of n =
    let whole = n / 1_000_000_000 in
    let missing = 1_000_000_000 - n % 1_000_000_000 in
    if ltb (missing * 2 ^ 53) (1_000_000_000 * top_power 33 1 whole) then suc whole else whole

unfoldable pub whole_seconds : ℤ → ℤ
unfolding seconds_of
whole_seconds (pos n) = pos (seconds_of n)
whole_seconds (negsuc n) = pos 0 -ℤ pos (seconds_of (suc n))

-- Go's integer division of a time that is not negative; `none` is the panic.
unfoldable pub window_index : ℕ → ℤ → Option ℤ
window_index now (pos zero) = none
window_index now (pos (suc n)) = some (pos (now / suc n))
window_index now (negsuc n) = some (pos 0 -ℤ pos (now / suc n))

unfoldable pub redis_key : Limiter → String → ℤ → String
redis_key l key index = l.prefix <> ":" <> key <> ":" <> decimal index

module _ (r : Redis) where
  -- A failed TTL falls back on the window.
  abbrev or_window : Limiter → Result ℤ → ℤ
  or_window l (err e) = l.window
  or_window l (ok ttl) = ttl

  abbrev decide : Limiter → ℤ → ℤ → Decision
  decide l count ttl =
      if ltb_ℤ l.limit count then decided false (pos 0) ttl else decided true (l.limit -ℤ count) ttl

  abbrev read_ttl : Limiter → String → ℤ → r.State → Decision × r.State
  read_ttl l key count s = let (ttl, s') = r.ttl key s in (decide l count (or_window l ttl), s')

  abbrev after_expire : Limiter → String → ℤ → Option GoError × r.State → Decision × r.State
  after_expire l key count (some e, s) = (failed (wrap_with "ratelimit: expire: " e), s)
  after_expire l key count (none, s) = read_ttl l key count s

  -- The first call of a window sets the expiry of its counter.
  abbrev after_incr : Limiter → String → Result ℤ × r.State → Decision × r.State
  after_incr l key (err e, s) = (failed (wrap_with "ratelimit: incr: " e), s)
  after_incr l key (ok (pos (suc zero)), s) = after_expire l key (pos 1) (r.expire key l.window s)
  after_incr l key (ok count, s) = read_ttl l key count s

  abbrev allow_at : Limiter → String → Option ℤ → r.State → Decision × r.State
  allow_at l key none s = (panics, s)
  allow_at l key (some index) s = let k = redis_key l key index in after_incr l k (r.incr k s)

  unfoldable pub allow : Limiter → String → ℕ → r.State → Decision × r.State
  allow l key now s = allow_at l key (window_index now (whole_seconds l.window)) s

  module _ {Entry : Type 0} (g : Gin Entry) where
    -- What the rest of the chain sees: its context, and the server's state.
    abbrev pub Handler : Type 0
    Handler = g.Context × r.State → Ended (g.Context × r.State)

    abbrev answer : Handler → g.Context → Decision × r.State → Ended (g.Context × r.State)
    answer next c (panics, s) = panicked divide_by_zero (c, s)
    answer next c (failed e, s) = next (c, s)
    answer next c (decided allowed remaining retry_after, s) =
        let counted = g.header "X-RateLimit-Remaining" (decimal remaining) c in
        if allowed
        then next (counted, s)
        else finished (
          g.abort_with_status_json 429 (field "error" (text "rate limit exceeded") end)
              (g.header "Retry-After" (decimal (whole_seconds retry_after)) counted),
          s,
        )

    unfoldable pub gin_middleware :
        Limiter
        → (g.Context → String)
        → ℕ
        → Handler
        → g.Context × r.State
        → Ended (g.Context × r.State)
    gin_middleware l key_of now next (c, s) = answer next c (allow l (key_of c) now s)
