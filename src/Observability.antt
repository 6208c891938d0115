-- ===== src/Observability.antt =====
-- observability/observability.go and observability/middleware_gin.go: the set-up of OpenTelemetry and
-- its shutdown.
-- OpenTelemetry and gRPC are not part of the repository: a record of calls over a state of the outside
-- world, to which the global providers belong. Durations are in nanoseconds.
pub mod Telemetry
pub mod Setup
pub mod Shutdown
mod Tests
use idp_sdk.Common.{
  ℕ, zero, suc, ◌+◌, ◌-◌, ◌*◌, ◌/◌, ◌%◌, ◌^◌, ◌≤◌, ◌<◌, String, ◌≡◌, ◌≢◌, refl, sym, ap, ◌∙◌, ◌↔◌,
  ◌⊎◌, inl, inr, Bool, true, false, not, ◌&&◌, ◌||◌, Option, none, some, List, [], ◌∷◌, map, ℤ, pos,
  negsuc, arith, eq_iff, ◌==◌, eqb, ltb, leb, ◌<>◌, if◌then◌else◌, GoError, Result, ok, err,
  Bool-cases, Option-cases, ok-injective,
}
use idp_sdk.Common.{◌++◌}
use idp_sdk.Common.Failure.{wrap_with, plain, error_text}

-- A float64, as far as a comparison with 0 looks into it.
pub data Float64 : Type 0 where
  finite : (negative : Bool) (mantissa : ℕ) (exponent : ℤ) → Float64
  infinite : (negative : Bool) → Float64
  nan : Float64

-- `f <= 0`
abbrev pub at_most_zero : Float64 → Bool
at_most_zero (finite negative mantissa exponent) = negative || eqb mantissa 0
at_most_zero (infinite negative) = negative
at_most_zero nan = false

abbrev pub one : Float64
one = finite false 1 (pos 0)

pub record Config : Type 0 where
  pub service_name : String
  pub service_version : String
  pub endpoint : String
  pub is_insecure : Bool
  pub sample_ratio : Float64

-- `insecure.NewCredentials()`, the one option that is ever passed to the dialer.
pub data DialOption : Type 0 where
  insecure_credentials : DialOption

pub data Propagator : Type 0 where
  trace_context : Propagator
  baggage : Propagator

pub record Otel : Type 1 where
  pub World : Type 0
  pub Resource : Type 0
  pub Conn : Type 0
  pub TraceExporter : Type 0
  pub MetricExporter : Type 0
  pub TracerProvider : Type 0
  pub MeterProvider : Type 0
  pub Middleware : Type 0
  -- with a name and a version, the environment and the process
  pub new_resource : String → String → World → Result Resource × World
  pub new_client : String → List DialOption → World → Result Conn × World
  pub new_trace_exporter : Conn → World → Result TraceExporter × World
  -- with the ratio of its sampler
  pub new_tracer_provider : Resource → TraceExporter → Float64 → World → TracerProvider × World
  pub new_metric_exporter : Conn → World → Result MetricExporter × World
  -- with the interval of its reader
  pub new_meter_provider : Resource → MetricExporter → ℤ → World → MeterProvider × World
  pub set_tracer_provider : TracerProvider → World → World
  pub set_meter_provider : MeterProvider → World → World
  pub set_propagator : List Propagator → World → World
  pub shutdown_tracer : TracerProvider → World → Option GoError × World
  pub shutdown_meter : MeterProvider → World → Option GoError × World
  pub close : Conn → World → Option GoError × World
  -- `otelgin.Middleware`
  pub otelgin : String → Middleware

abbrev pub ratio : Float64 → Float64
ratio f = if at_most_zero f then one else f

abbrev pub dial_options : Bool → List DialOption
dial_options is_insecure = if is_insecure then insecure_credentials ∷ [] else []

abbrev pub propagators : List Propagator
propagators = trace_context ∷ baggage ∷ []

-- `append(errs, err)` where err is not nil.
abbrev pub appended : List GoError → Option GoError → List GoError
appended errs none = errs
appended errs (some e) = errs ++ (e ∷ [])

abbrev behind_space : List GoError → String
behind_space [] = ""
behind_space (e ∷ es) = " " <> error_text e <> behind_space es

-- `%v` of a slice of errors.
abbrev pub listed : List GoError → String
listed [] = "[]"
listed (e ∷ es) = "[" <> error_text e <> behind_space es <> "]"

abbrev pub shutdown_error : List GoError → Option GoError
shutdown_error [] = none
shutdown_error (e ∷ es) = some (plain ("observability: shutdown errors: " <> listed (e ∷ es)))

module _ (o : Otel) where
  -- The connection is what Shutdown closes over.
  pub record Providers : Type 0 where
    pub tracer_provider : o.TracerProvider
    pub meter_provider : o.MeterProvider
    pub conn : o.Conn

  abbrev with_metric_exporter :
      o.Resource
      → o.Conn
      → o.TracerProvider
      → Result o.MetricExporter × o.World
      → Result Providers × o.World
  with_metric_exporter res conn tp (err e, w) =
      (err (wrap_with "observability: creating metric exporter: " e), w)
  with_metric_exporter res conn tp (ok exporter, w) =
      let (mp, w') = o.new_meter_provider res exporter (pos 15_000_000_000) w in
      (
        ok (record { tracer_provider = tp; meter_provider = mp; conn = conn }),
        o.set_propagator propagators (o.set_meter_provider mp (o.set_tracer_provider tp w')),
      )

  abbrev with_trace_exporter :
      Float64 → o.Resource → o.Conn → Result o.TraceExporter × o.World → Result Providers × o.World
  with_trace_exporter f res conn (err e, w) =
      (err (wrap_with "observability: create trace exporter: " e), w)
  with_trace_exporter f res conn (ok exporter, w) =
      let (tp, w') = o.new_tracer_provider res exporter f w in
      with_metric_exporter res conn tp (o.new_metric_exporter conn w')

  abbrev with_conn :
      String → Float64 → o.Resource → Result o.Conn × o.World → Result Providers × o.World
  with_conn endpoint f res (err e, w) =
      (err (wrap_with ("observability: dialing collector at " <> endpoint <> ": ") e), w)
  with_conn endpoint f res (ok conn, w) =
      with_trace_exporter f res conn (o.new_trace_exporter conn w)

  abbrev with_resource : Config → Result o.Resource × o.World → Result Providers × o.World
  with_resource cfg (err e, w) = (err (wrap_with "observability: building resources: " e), w)
  with_resource cfg (ok res, w) =
      with_conn cfg.endpoint (ratio cfg.sample_ratio) res
        (o.new_client cfg.endpoint (dial_options cfg.is_insecure) w)

  unfoldable pub setup : Config → o.World → Result Providers × o.World
  setup cfg w = with_resource cfg (o.new_resource cfg.service_name cfg.service_version w)

  -- `Providers.Shutdown`
  unfoldable pub shutdown : Providers → o.World → Option GoError × o.World
  shutdown ps w =
      let (a, w1) = o.shutdown_tracer ps.tracer_provider w in
      let (b, w2) = o.shutdown_meter ps.meter_provider w1 in
      let (c, w3) = o.close ps.conn w2 in
      (shutdown_error (appended (appended (appended [] a) b) c), w3)

  unfoldable pub gin_middleware : String → o.Middleware
  gin_middleware service_name = o.otelgin service_name
