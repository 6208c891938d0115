-- ===== src/Server/Tests.antt =====
-- Runs of server/server.go, and its theorems at concrete inputs.
use idp_sdk.Common.{
  ℕ, ◌≤◌, String, ◌≡◌, ◌≢◌, refl, ◌↔◌, ◌⊎◌, true, false, Option, none, some, List, [], ◌∷◌, map, ℤ,
  pos,
}
use idp_sdk.Common.{◌++◌}
use idp_sdk.Common.Value.{end, Fields}
use idp_sdk.Gin.{Gin}
use idp_sdk.Gin.Plain.{Plain, plain, request}
use idp_sdk.Gin.Chain.{Middleware, finished, panicked, Handler, chain}
use idp_sdk.Slog.{info, json_format, Logger, Line, Process}
use idp_sdk.Logging.{Context, Requests, request_logger}
use idp_sdk.Logging.Attrs.{Has}
use idp_sdk.Server.{Config, new, serve, with_middleware}
use idp_sdk.Server.Stack.{
  KeepsRequest, Rescued, serve-Rescued, flatten, arrived, handed, Told, request_log,
  request_log_lem,
}
use idp_sdk.Server.Life.{
  failed, shut, clean, draining, returned, State as RunState, started, Step, accepts, fails,
  signals, takes_signal, drained, Steps, here, after, Outcome,
}
use idp_sdk.Server.Shutdown.{IsOrderly, started-IsOrderly, shutdown_ends}

-- A process that keeps its log and hands out one id.
record Journal : Type 0 where
  clock : ℤ
  lines : List Line

abbrev journal : Process
journal = record {
  World = Journal;
  now = λ w. w.clock;
  print = λ l w. record w { lines = w.lines ++ (l ∷ []) };
  new_uuid = λ w. ("fresh", w);
}

abbrev g : Gin String
g = plain String

abbrev answer_status : Option (ℕ × Fields) → ℕ
answer_status none = 200
answer_status (some (status, body)) = status

abbrev untraced : Context
untraced = record { logger = none; span = record { valid = false; trace_id = ""; span_id = "" } }

abbrev requests : Requests g
requests = record {
  context = λ c. untraced;
  with_request_context = λ ctx c. c;
  method = λ c. "GET";
  full_path = λ c. "/users/:id";
  url_path = λ c. "/users/7";
  status = λ c. answer_status c.answer;
  client_ip = λ c. "10.0.0.9";
  errors = λ c. none;
}

abbrev id : String → String
id s = s

g-KeepsRequest : KeepsRequest g
g-KeepsRequest = record { after_header = λ key k v c. refl; after_set = λ key k e c. refl }

abbrev base : Logger
base = record { format = json_format; level = info; attrs = [] }

abbrev cfg : Config
cfg = record { port = pos 8080; shutdown_timeout = pos 0; environment = "production" }

abbrev bare : Plain String × Journal
bare = (request [], record { clock = pos 7; lines = [] })

abbrev fragile : Handler (Plain String × Journal)
fragile s = panicked "nil map" s

abbrev greet : Handler (Plain String × Journal)
greet (c, w) = finished (g.json 404 end c, w)

serve-Rescued_example :
    Rescued g requests journal id base
      (chain (flatten ([] ∷ [])) fragile (arrived g requests journal id bare))
      (serve g requests journal id
        (new g requests journal id base cfg none
          (map (with_middleware g requests journal id) ([] ∷ []))).0
        fragile
        bare)
serve-Rescued_example = serve-Rescued g requests journal id base cfg none ([] ∷ []) fragile bare

abbrev request_log_stack : List (List (Middleware (Plain String × Journal)))
request_log_stack = request_log g requests journal id g-KeepsRequest base base cfg none greet bare

request_log_lem_example :
    Told g requests journal id g-KeepsRequest base base cfg none greet bare
      (greet (handed g requests journal id g-KeepsRequest base base cfg none greet bare))
      (serve g requests journal id
        (new g requests journal id base cfg none
          (map (with_middleware g requests journal id) request_log_stack)).0
        greet
        bare)
    × (Has "request_id" "fresh"
          (request_logger g requests journal base (arrived g requests journal id bare).0)
        ↔ (Has "request_id" "fresh" base
            ⊎ (g.get_header "X-Request-Id" bare.0 ≢ "")
              × ("fresh" ≡ g.get_header "X-Request-Id" bare.0)))
request_log_lem_example =
    request_log_lem g requests journal id g-KeepsRequest base base cfg none greet bare "fresh"

-- A listener that failed when a signal came at the same time: Run returns nil.
abbrev swallowed : RunState
swallowed = record { listener = failed; phase = returned clean; signalled = true; in_flight = 0 }

swallowed-Steps : Steps started 4 swallowed
swallowed-Steps = after (after (after (after here fails) signals) takes_signal) drained

started-IsOrderly_example : IsOrderly swallowed
started-IsOrderly_example = started-IsOrderly swallowed 4 swallowed-Steps

abbrev busy : RunState
busy = record { listener = shut; phase = draining; signalled = true; in_flight = 2 }

busy-Steps : Steps started 4 busy
busy-Steps = after (after (after (after here accepts) accepts) signals) takes_signal

shutdown_ends_example :
    (0 ≤ 3) × (((o : Outcome) × (draining ≡ returned o)) ⊎ ((u : RunState) × Step busy u))
shutdown_ends_example = shutdown_ends busy busy 4 0 busy-Steps refl here
