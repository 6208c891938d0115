-- ===== src/Observability/Telemetry.antt =====
-- What observability/observability.go keeps open and registers: the view of OpenTelemetry by which
-- its set-up and its shutdown are stated.
use idp_sdk.Common.{ℕ, ◌+◌, ◌-◌, String, ◌≡◌, Option, some, List, [], ◌∷◌, ℤ, GoError, ok, err}
use idp_sdk.Observability.{Otel, Float64, DialOption, insecure_credentials, Propagator}

pub record View (o : Otel) : Type 0 where
  -- open connections, running tracer providers and running meter providers
  pub conns : ℕ
  pub tracers : ℕ
  pub meters : ℕ
  -- what `otel.Set…` registered
  pub tracer : Option o.TracerProvider
  pub meter : Option o.MeterProvider
  pub propagator : List Propagator

-- The calls on the view, as OpenTelemetry and gRPC document them: exporters share the connection that
-- they are given, and gRPC makes no client without credentials.
pub record Telemetry (o : Otel) (view : o.World → View o) : Type 0 where
  pub same_resource : (n v : String) (w : o.World) → view (o.new_resource n v w).1 ≡ view w
  pub dials :
      (a : String) (ds : List DialOption) (w : o.World) (c : o.Conn)
      → (o.new_client a ds w).0 ≡ ok c
      → (ds ≡ insecure_credentials ∷ [])
        × (view (o.new_client a ds w).1 ≡ record (view w) { conns = (view w).conns + 1 })
  pub dial_fails :
      (a : String) (ds : List DialOption) (w : o.World) (e : GoError)
      → (o.new_client a ds w).0 ≡ err e
      → view (o.new_client a ds w).1 ≡ view w
  pub same_trace_exporter : (c : o.Conn) (w : o.World) → view (o.new_trace_exporter c w).1 ≡ view w
  pub runs_tracer :
      (r : o.Resource) (x : o.TraceExporter) (f : Float64) (w : o.World)
      → view (o.new_tracer_provider r x f w).1 ≡ record (view w) { tracers = (view w).tracers + 1 }
  pub same_metric_exporter :
      (c : o.Conn) (w : o.World) → view (o.new_metric_exporter c w).1 ≡ view w
  pub runs_meter :
      (r : o.Resource) (x : o.MetricExporter) (d : ℤ) (w : o.World)
      → view (o.new_meter_provider r x d w).1 ≡ record (view w) { meters = (view w).meters + 1 }
  pub sets_tracer :
      (t : o.TracerProvider) (w : o.World)
      → view (o.set_tracer_provider t w) ≡ record (view w) { tracer = some t }
  pub sets_meter :
      (m : o.MeterProvider) (w : o.World)
      → view (o.set_meter_provider m w) ≡ record (view w) { meter = some m }
  pub sets_propagator :
      (ps : List Propagator) (w : o.World)
      → view (o.set_propagator ps w) ≡ record (view w) { propagator = ps }
  pub stops_tracer :
      (t : o.TracerProvider) (w : o.World)
      → view (o.shutdown_tracer t w).1 ≡ record (view w) { tracers = (view w).tracers - 1 }
  pub stops_meter :
      (m : o.MeterProvider) (w : o.World)
      → view (o.shutdown_meter m w).1 ≡ record (view w) { meters = (view w).meters - 1 }
  pub closes :
      (c : o.Conn) (w : o.World)
      → view (o.close c w).1 ≡ record (view w) { conns = (view w).conns - 1 }
