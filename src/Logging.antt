-- ===== src/Logging.antt =====
-- logging/logging.go and logging/middleware_gin.go: the logger of a service, the logger that a
-- context carries, and the request log.
-- A `context.Context` is what the package looks up in it: a logger, and the span of OpenTelemetry.
use idp_sdk.Common.{
  ℕ, zero, suc, ◌+◌, ◌-◌, ◌*◌, ◌/◌, ◌%◌, ◌^◌, ◌≤◌, ◌<◌, String, ◌≡◌, ◌≢◌, refl, sym, ap, ◌∙◌, ◌↔◌,
  ◌⊎◌, inl, inr, Bool, true, false, not, ◌&&◌, ◌||◌, Option, none, some, List, [], ◌∷◌, map, ℤ, pos,
  negsuc, arith, eq_iff, ◌==◌, eqb, ltb, leb, ◌<>◌, if◌then◌else◌, GoError, Result, ok, err,
  Bool-cases, Option-cases, ok-injective,
}
pub mod Attrs
mod Tests
use Prim.Native.Char.{code}
use Prim.Native.String
use idp_sdk.Common.Int.{◌-ℤ◌}
use idp_sdk.Gin.{Gin}
use idp_sdk.Gin.Chain.{Ended, finished, panicked, Handler}
use idp_sdk.Slog.{
  Level, debug, info, warn, error, Format, text_format, json_format, Attr, text, int, duration,
  Logger, with_attrs, Process, log,
}

pub record Config : Type 0 where
  pub level : String
  pub format : String

-- `unicode.ToLower` as far as it yields an ASCII letter: two letters outside ASCII do.
abbrev pub lower : ℕ → ℕ
lower c =
    if leb b'A' c && leb c b'Z'
    then c + 32
    else if eqb c 0x130
    then b'i'
    else if eqb c 0x212a
    then b'k'
    else c

-- `strings.ToLower(s) == t`, and so `strings.EqualFold(s, t)` for the t "text", whose letters no
-- letter outside ASCII folds to; t is in small letters.
unfoldable pub lowers_to : String → String → Bool
lowers_to String.[] String.[] = true
lowers_to String.[] (String.◌∷◌ d t) = false
lowers_to (String.◌∷◌ c s) String.[] = false
lowers_to (String.◌∷◌ c s) (String.◌∷◌ d t) = eqb (lower (code c)) (code d) && lowers_to s t

unfoldable pub parse_level : String → Level
parse_level s =
    if lowers_to s "debug"
    then debug
    else if lowers_to s "warn" || lowers_to s "warning"
    then warn
    else if lowers_to s "error"
    then error
    else info

unfoldable pub new : Config → Logger
new cfg = record {
  format = if lowers_to cfg.format "text" then text_format else json_format;
  level = parse_level cfg.level;
  attrs = [];
}

pub record SpanContext : Type 0 where
  pub valid : Bool
  pub trace_id : String
  pub span_id : String

pub record Context : Type 0 where
  pub logger : Option Logger
  pub span : SpanContext

unfoldable pub with_context : Context → Logger → Context
with_context ctx logger = record ctx { logger = some logger }

abbrev or_fallback : Option Logger → Logger → Logger
or_fallback none fallback = fallback
or_fallback (some l) fallback = l

unfoldable pub from_context : Context → Logger → Logger
from_context ctx fallback = or_fallback ctx.logger fallback

unfoldable pub with_trace : Context → Logger → Logger
with_trace ctx logger =
    if not ctx.span.valid
    then logger
    else with_attrs (("trace_id", text ctx.span.trace_id) ∷ ("span_id", text ctx.span.span_id) ∷ [])
        logger

-- What the middleware asks a `*gin.Context` for, besides its headers.
pub record Requests {Entry : Type 0} (g : Gin Entry) : Type 0 where
  pub context : g.Context → Context
  pub with_request_context : Context → g.Context → g.Context
  pub method : g.Context → String
  pub full_path : g.Context → String
  pub url_path : g.Context → String
  pub status : g.Context → ℕ
  pub client_ip : g.Context → String
  -- the text of `c.Errors`, where there are any
  pub errors : g.Context → Option String

module _ {Entry : Type 0} (g : Gin Entry) (q : Requests g) (p : Process) where
  abbrev pub State : Type 0
  State = g.Context × p.World

  abbrev with_request_id : String → Logger → Logger
  with_request_id req_id logger =
      if req_id == "" then logger else with_attrs (("request_id", text req_id) ∷ []) logger

  unfoldable pub request_logger : Logger → g.Context → Logger
  request_logger base c =
      with_request_id (g.get_header "X-Request-Id" c) (with_trace (q.context c) base)

  abbrev pub error_attrs : Option String → List Attr
  error_attrs none = []
  error_attrs (some errors) = ("gin_errors", text errors) ∷ []

  abbrev pub request_attrs : g.Context → ℤ → List Attr
  request_attrs c latency =
      ("method", text (q.method c))
      ∷ ("path", text (q.full_path c))
      ∷ ("status", int (pos (q.status c)))
      ∷ ("latency", duration latency)
      ∷ ("client_ip", text (q.client_ip c))
      ∷ error_attrs (q.errors c)

  unfoldable pub request_level : ℕ → Level
  request_level status = if leb 500 status then error else if leb 400 status then warn else info

  -- Behind `c.Next()`. A panic passes by: nothing here is deferred.
  abbrev pub logged : Logger → ℤ → Ended State → Ended State
  logged logger start (panicked v s) = panicked v s
  logged logger start (finished (c, w)) = finished (
    c,
    log p logger (request_level (q.status c)) "request" (request_attrs c (p.now w -ℤ start)) w,
  )

  unfoldable pub gin_middleware : Logger → Handler State → Handler State
  gin_middleware base next (c, w) =
      let logger = request_logger base c in
      logged logger (p.now w)
        (next (q.with_request_context (with_context (q.context c) logger) c, w))
