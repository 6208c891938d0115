-- ===== src/RateLimit/Tests.antt =====
-- Runs of ratelimit/ratelimit.go, and its theorems at concrete inputs.
use Prim.Native.Nat.{min}
use idp_sdk.Common.{
  insert, lookup, ℕ, ◌-◌, String, ◌≡◌, refl, Option, none, some, List, [], ◌∷◌, pos, arith,
}
use idp_sdk.Common.Decimal.{decimal}
use idp_sdk.Common.Value.{end}
use idp_sdk.Gin.{Gin}
use idp_sdk.Gin.Plain.{Plain, plain, request}
use idp_sdk.Redis.Counters.{counters}
use idp_sdk.RateLimit.{
  top_power, seconds_of, Limiter, panics, whole_seconds, window_index, redis_key, allow,
  gin_middleware,
}
use idp_sdk.RateLimit.Budget.{Counts, calls_on, allowed_on, allowed_on-eq-min}
use idp_sdk.Gin.Chain.{Ended, finished, panicked}
use idp_sdk.RateLimit.{Handler}
use idp_sdk.RateLimit.Middleware.{allow-panics}

-- Two calls in a minute.
abbrev l : Limiter
l = record { limit = pos 2; window = pos 60_000_000_000; prefix = "rl" }

abbrev idle : String → ℕ
idle _ = 0

counters-Counts : Counts counters (λ k s. s k)
counters-Counts = record {
  incr_result = λ k s. refl;
  incr_value = λ k j s. refl;
  expire_result = λ k d s. refl;
  expire_value = λ k j d s. refl;
  ttl_value = λ k j s. refl;
}

-- Three calls of a in the first minute, one of b between them, and one of a in the next minute.
abbrev calls : List (String × ℕ)
calls = ("a", 5) ∷ ("b", 6) ∷ ("a", 7) ∷ ("a", 59) ∷ ("a", 61) ∷ []

counts : (calls_on l "rl:a:0" calls ≡ 3) × (allowed_on counters l "rl:a:0" calls idle ≡ 2)
unfolding allow window_index whole_seconds seconds_of top_power redis_key decimal
counts = (refl, refl)

allowed_on-eq-min_example :
    allowed_on counters l "rl:a:0" calls idle ≡ min (calls_on l "rl:a:0" calls) (2 - 0)
allowed_on-eq-min_example =
    allowed_on-eq-min counters (λ k s. s k) counters-Counts l "rl:a:0" calls idle

abbrev short : Limiter
short = record l { window = pos 500_000_000 }

half_a_second : (allow counters short "a" 5 idle).0 ≡ panics
half_a_second = (allow-panics counters short "a" 5 idle).1 (omega arith)

abbrev browser : Plain Unit
browser = request (("X-Api-Key", "a") ∷ [])

abbrev g : Gin Unit
g = plain Unit

abbrev key_of : Plain Unit → String
key_of = g.get_header "X-Api-Key"

abbrev chain : Handler counters g
chain (c, s) = finished (g.json 200 end c, s)

abbrev spent : String → ℕ
spent _ = 2

abbrev aborted_with : Ended (Plain Unit × (String → ℕ)) → Option ℕ
aborted_with (panicked v s) = none
aborted_with (finished (c, s)) = c.aborted

denied_run : aborted_with (gin_middleware counters g l key_of 5 chain (browser, spent)) ≡ some 429
unfolding gin_middleware allow window_index whole_seconds seconds_of top_power redis_key decimal
    lookup insert
denied_run = refl

-- A nanosecond less than a year of 400 days is closer to the next second than a float64 tells.
year : whole_seconds (pos 34_559_999_999_999_999) ≡ pos 34_560_000
unfolding whole_seconds seconds_of top_power
year = refl
