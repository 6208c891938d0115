-- ===== src/Endpoint/Limited.antt =====
-- A service of server/server.go with the rate limiter of ratelimit/ratelimit.go in front.
use idp_sdk.Common.{ℕ, String, ◌≡◌, refl, sym, ap, ◌∙◌, inl, inr, Option, List, [], ◌∷◌, map, ℤ}
use idp_sdk.Gin.{Gin}
use idp_sdk.Gin.Chain.{Ended, finished, panicked, Handler, Middleware, chain}
use idp_sdk.Slog.{Line, Logger, Process}
use idp_sdk.Logging.{Requests}
use idp_sdk.Redis.{Redis}
use idp_sdk.RateLimit.{Limiter, divide_by_zero, gin_middleware}
use idp_sdk.RateLimit.Middleware.{IsShort, allow-short}
use idp_sdk.Server.{Config, with_middleware, serve, or_default, new}
use idp_sdk.Server.Stack.{arrived, Rescued, rescued, serve-Rescued, flatten}

module _ (r : Redis) (now : r.State → ℤ) (print : Line → r.State → r.State)
    (new_uuid : r.State → String × r.State) where
  -- The service's process: one outside world for Redis and the log.
  abbrev pub process : Process
  process = record { World = r.State; now = now; print = print; new_uuid = new_uuid }

  module _ {Entry : Type 0} (g : Gin Entry) (q : Requests g) (as_entry : String → Entry) where
    limited :
        (l : Limiter) (key_of : g.Context → String) (time : ℕ)
        (next : Handler (g.Context × r.State)) (s : g.Context × r.State)
        → IsShort l.window
        → gin_middleware r g l key_of time next s ≡ panicked divide_by_zero s
    unfolding gin_middleware
    limited l key_of time next (c, s) short = rw (allow-short r l (key_of c) time s short) refl

    abbrev rescue : Logger → Ended (g.Context × r.State) → g.Context × r.State
    rescue log (finished s) = s
    rescue log (panicked v s) = rescued g q process as_entry log v s

    Rescued-panicked :
        (log : Logger) (o result : Ended (g.Context × r.State)) (v : String)
        (s : g.Context × r.State)
        → o ≡ panicked v s
        → Rescued g q process as_entry log o result
        → result ≡ finished (rescued g q process as_entry log v s)
    Rescued-panicked log o result v s h (inl (t, x, y)) = cc
    Rescued-panicked log o result v s h (inr (u, t, x, y)) =
        y ∙ ap (λ e. finished (rescue log e)) (sym x ∙ h)

    -- A service whose server has the rate limiter in front, with a window shorter than a second, serves
    -- nobody: every request is answered with 500, and the panic is logged, whatever other middleware
    -- and the handler do. They are not run, and Redis is not asked.
    pub serve-short :
        (l : Limiter) (key_of : g.Context → String) (time : ℕ)
        → IsShort l.window
        → (default : Logger) (cfg : Config) (logger : Option Logger)
          (more : List (Middleware (g.Context × r.State))) (handler : Handler (g.Context × r.State))
          (s : g.Context × r.State)
        → serve g q process as_entry
            (new g q process as_entry default cfg logger (
              map
                (with_middleware g q process as_entry)
                (((gin_middleware r g l key_of time) ∷ more) ∷ []))).0
            handler
            s
          ≡ finished (
              rescued g q process as_entry
                (or_default g q process as_entry default logger)
                divide_by_zero
                (arrived g q process as_entry s))
    serve-short l key_of time short default cfg logger more handler s =
        Rescued-panicked (or_default g q process as_entry default logger) _ _ divide_by_zero
          (arrived g q process as_entry s)
          (limited l key_of time (chain (flatten (more ∷ [])) handler)
            (arrived g q process as_entry s) short)
          (serve-Rescued g q process as_entry default cfg logger
            (((gin_middleware r g l key_of time) ∷ more) ∷ []) handler s)
