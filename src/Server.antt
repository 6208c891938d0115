-- ===== src/Server.antt =====
-- server/server.go: the server with its middleware, the request id and the recovery. The life of
-- `Run` is in Server/Life.
pub mod Life
pub mod Shutdown
pub mod Stack
mod Tests
use idp_sdk.Common.{
  ℕ, zero, suc, ◌+◌, ◌-◌, ◌*◌, ◌/◌, ◌%◌, ◌^◌, ◌≤◌, ◌<◌, String, ◌≡◌, ◌≢◌, refl, sym, ap, ◌∙◌, ◌↔◌,
  ◌⊎◌, inl, inr, Bool, true, false, not, ◌&&◌, ◌||◌, Option, none, some, List, [], ◌∷◌, map, ℤ, pos,
  negsuc, arith, eq_iff, ◌==◌, eqb, ltb, leb, ◌<>◌, if◌then◌else◌, GoError, Result, ok, err,
  Bool-cases, Option-cases, ok-injective,
}
use idp_sdk.Common.{◌++◌}
use idp_sdk.Common.Int.{positive_or}
use idp_sdk.Common.Value.{Fields, text as text_value, field, end}
use idp_sdk.Gin.{Gin}
use idp_sdk.Gin.Chain.{Ended, finished, panicked, Handler, Middleware, chain}
use idp_sdk.Slog.{Attr, text, error, Logger, Process, log}
use idp_sdk.Logging.{Requests}

pub record Config : Type 0 where
  pub port : ℤ
  pub shutdown_timeout : ℤ
  pub environment : String

-- `gin.SetMode`, and the mode as it is before.
pub data Mode : Type 0 where
  release : Mode
  unchanged : Mode

module _ {Entry : Type 0} (g : Gin Entry) (q : Requests g) (p : Process)
    (as_entry : String → Entry) where
  abbrev pub State : Type 0
  State = g.Context × p.World

  -- `engine` is what `engine.Use` was given, in order.
  pub record Server : Type 0 where
    pub engine : List (Middleware State)
    pub cfg : Config
    pub logger : Logger

  abbrev pub ServerOption : Type 0
  ServerOption = Server → Server

  abbrev pub use_all : List (Middleware State) → Server → Server
  use_all mws s = record s { engine = s.engine ++ mws }

  -- `WithRequestLogging`, `WithTracing` and `WithCORS` are one code.
  unfoldable pub with_request_logging : Middleware State → ServerOption
  with_request_logging mw = use_all (mw ∷ [])

  unfoldable pub with_middleware : List (Middleware State) → ServerOption
  with_middleware mws = use_all mws

  abbrev with_id : Handler State → g.Context → String × p.World → Ended State
  with_id next c (id, w) = next (g.set "request_id" (as_entry id) (g.header "X-Request-Id" id c), w)

  unfoldable pub request_id_middleware : Middleware State
  request_id_middleware next (c, w) =
      let id = g.get_header "X-Request-Id" c in
      with_id next c (if id == "" then p.new_uuid w else (id, w))

  -- The deferred function.
  abbrev recovered : Logger → Ended State → Ended State
  recovered logger (finished s) = finished s
  recovered logger (panicked v (c, w)) = finished (
    g.abort_with_status_json 500 (field "error" (text_value "internal server error") end) c,
    log p logger error "panic recovered" (("panic", text v) ∷ ("path", text (q.url_path c)) ∷ []) w,
  )

  unfoldable pub recovery_middleware : Logger → Middleware State
  recovery_middleware logger next s = recovered logger (next s)

  abbrev pub or_default : Logger → Option Logger → Logger
  or_default default none = default
  or_default default (some l) = l

  abbrev apply_options : List ServerOption → Server → Server
  apply_options [] s = s
  apply_options (opt ∷ opts) s = apply_options opts (opt s)

  -- `default` is `slog.Default()`.
  unfoldable pub new : Logger → Config → Option Logger → List ServerOption → Server × Mode
  new default cfg logger opts =
      let l = or_default default logger in
      (
        apply_options opts (record {
          engine = request_id_middleware ∷ recovery_middleware l ∷ [];
          cfg = record cfg {
            shutdown_timeout = positive_or cfg.shutdown_timeout (pos 15_000_000_000);
          };
          logger = l;
        }),
        if cfg.environment == "production" then release else unchanged,
      )

  -- A request, by the handler of its route.
  unfoldable pub serve : Server → Handler State → Handler State
  serve s handler = chain s.engine handler
