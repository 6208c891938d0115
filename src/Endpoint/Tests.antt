-- ===== src/Endpoint/Tests.antt =====
-- A request to a protected endpoint, and its theorem at concrete inputs.
use idp_sdk.Common.{false, ℕ, String, none, [], ◌∷◌, ℤ, pos}
use idp_sdk.Gin.{Gin}
use idp_sdk.Gin.Plain.{Plain, plain as gin, request}
use idp_sdk.Gin.Chain.{panicked, Handler}
use idp_sdk.Slog.{Line, Logger, json_format, info}
use idp_sdk.Logging.{Requests}
use idp_sdk.Common.{map, arith, ◌≡◌}
use idp_sdk.Common.Value.{end}
use idp_sdk.Slog.{Process}
use idp_sdk.Server.{Config, serve, new, with_middleware}
use idp_sdk.Server.Stack.{rescued, arrived}
use idp_sdk.Redis.Counters.{counters}
use idp_sdk.RateLimit.{Limiter, divide_by_zero, gin_middleware}
use idp_sdk.Endpoint.Limited.{process as limited_process, serve-short}
use idp_sdk.Auth.Middleware.{Entry, other}
use idp_sdk.Auth.Example.{idp, config, a, built, gin-KeepsKeys}
use idp_sdk.Endpoint.{finished, process, protected_server}
use idp_sdk.Endpoint.Served.{Answered, at_door, serve-Answered}

abbrev g : Gin Entry
g = gin Entry

abbrev requests : Requests g
requests = record {
  context =
      λ c. record { logger = none; span = record { valid = false; trace_id = ""; span_id = "" } };
  with_request_context = λ ctx c. c;
  method = λ c. "GET";
  full_path = λ c. "/orders";
  url_path = λ c. "/orders";
  status = λ c. 200;
  client_ip = λ c. "10.0.0.9";
  errors = λ c. none;
}

abbrev clock : ℕ → ℤ
clock w = pos w

abbrev silent : Line → ℕ → ℕ
silent l w = w

abbrev fresh_id : ℕ → String × ℕ
fresh_id w = ("fresh", w)

abbrev default : Logger
default = record { format = json_format; level = info; attrs = [] }

abbrev cfg : Config
cfg = record { port = pos 8080; shutdown_timeout = pos 0; environment = "production" }

-- A handler that fails behind an admin's claims.
abbrev orders : Handler (Plain Entry × ℕ)
orders s = panicked "index out of range" s

abbrev arriving : Plain Entry × ℕ
arriving = (request (("Authorization", "Bearer t") ∷ []), 0)

serve-Answered_example :
    Answered idp clock silent fresh_id g requests a
      ("admin" ∷ [])
      default
      orders
      (at_door idp clock silent fresh_id g requests a ("admin" ∷ []) arriving)
      (serve g requests
        (process idp clock silent fresh_id)
        other
        (protected_server idp clock silent fresh_id g requests a ("admin" ∷ []) default cfg none)
        orders
        arriving)
serve-Answered_example =
    serve-Answered idp clock silent fresh_id g requests a ("admin" ∷ []) gin-KeepsKeys config [] 0
      built default cfg none orders arriving

-- A limiter of two calls in half a second, in front of a handler that would answer.
abbrev half_second : Limiter
half_second = record { limit = pos 2; window = pos 500_000_000; prefix = "ratelimit" }

abbrev redis_now : (String → ℕ) → ℤ
redis_now w = pos 0

abbrev redis_print : Line → (String → ℕ) → String → ℕ
redis_print l w = w

abbrev redis_uuid : (String → ℕ) → String × (String → ℕ)
redis_uuid w = ("fresh", w)

abbrev unused : String → ℕ
unused _ = 0

abbrev by_ip : Plain Entry → String
by_ip c = "10.0.0.9"

abbrev welcome : Handler (Plain Entry × (String → ℕ))
welcome (c, s) = finished (g.json 200 end c, s)

abbrev redis_process : Process
redis_process = limited_process counters redis_now redis_print redis_uuid

serve-short_example :
    serve g requests redis_process other
      (new g requests redis_process other default cfg none (
        map
          (with_middleware g requests redis_process other)
          (((gin_middleware counters g half_second by_ip 5) ∷ []) ∷ []))).0
      welcome
      (request [], unused)
    ≡ finished (
        rescued g requests redis_process other default divide_by_zero
          (arrived g requests redis_process other (request [], unused)))
serve-short_example =
    serve-short counters redis_now redis_print redis_uuid g requests other half_second by_ip 5
      (omega arith) default cfg none [] welcome (request [], unused)
