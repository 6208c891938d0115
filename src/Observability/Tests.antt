-- ===== src/Observability/Tests.antt =====
-- Runs of observability/, and its theorems at concrete inputs.
use idp_sdk.Common.{
  ℕ, ◌+◌, ◌-◌, String, ◌≡◌, ◌↔◌, refl, Bool, true, false, Option, none, some, List, [], ◌∷◌, pos,
  negsuc, if◌then◌else◌, GoError, Result, ok, err,
}
use idp_sdk.Common.Failure.{plain, error_text}
use idp_sdk.Observability.{
  Otel, Config, finite, infinite, nan, ratio, one, DialOption, insecure_credentials, Propagator,
  Providers, setup, shutdown, gin_middleware,
}
use idp_sdk.Observability.Telemetry.{View, Telemetry}
use idp_sdk.Observability.Setup.{Left, setup-Left}
use idp_sdk.Observability.Shutdown.{failures, no_failures, registered, shutdown-setup}

-- A process that counts what is open. Its exporters of metrics can be made to fail.
record Process : Type 0 where
  conns : ℕ
  tracers : ℕ
  meters : ℕ
  tracer : Option String
  meter : Option String
  propagator : List Propagator

abbrev dial : List DialOption → Process → Result String × Process
dial [] w = (err (plain "grpc: no transport security set"), w)
dial (insecure_credentials ∷ []) w = (ok "conn", record w { conns = w.conns + 1 })
dial (a ∷ b ∷ ds) w = (err (plain "too many options"), w)

abbrev metric_exporter : Bool → Result String
metric_exporter fails = if fails then err (plain "unsupported compressor") else ok "metrics"

abbrev otel : Bool → Otel
otel fails = record {
  World = Process;
  Resource = String;
  Conn = String;
  TraceExporter = String;
  MetricExporter = String;
  TracerProvider = String;
  MeterProvider = String;
  Middleware = String;
  new_resource = λ n v w. (ok n, w);
  new_client = λ a ds w. dial ds w;
  new_trace_exporter = λ c w. (ok "traces", w);
  new_tracer_provider = λ r x f w. ("tracer", record w { tracers = w.tracers + 1 });
  new_metric_exporter = λ c w. (metric_exporter fails, w);
  new_meter_provider = λ r x d w. ("meter", record w { meters = w.meters + 1 });
  set_tracer_provider = λ t w. record w { tracer = some t };
  set_meter_provider = λ m w. record w { meter = some m };
  set_propagator = λ ps w. record w { propagator = ps };
  shutdown_tracer = λ t w. (some (plain "deadline"), record w { tracers = w.tracers - 1 });
  shutdown_meter = λ m w. (none, record w { meters = w.meters - 1 });
  close = λ c w. (some (plain "closing"), record w { conns = w.conns - 1 });
  otelgin = λ s. s;
}

abbrev view : (fails : Bool) → Process → View (otel fails)
view fails w = record {
  conns = w.conns;
  tracers = w.tracers;
  meters = w.meters;
  tracer = w.tracer;
  meter = w.meter;
  propagator = w.propagator;
}

dial_opens :
    (fails : Bool) (ds : List DialOption) (w : Process) (c : String)
    → (dial ds w).0 ≡ ok c
    → (ds ≡ insecure_credentials ∷ [])
      × (view fails (dial ds w).1 ≡ record (view fails w) { conns = w.conns + 1 })
dial_opens fails [] w c h = cc
dial_opens fails (insecure_credentials ∷ []) w c h = (refl, refl)
dial_opens fails (a ∷ b ∷ ds) w c h = cc

dial_refuses :
    (fails : Bool) (ds : List DialOption) (w : Process) (e : GoError)
    → (dial ds w).0 ≡ err e
    → view fails (dial ds w).1 ≡ view fails w
dial_refuses fails [] w e h = refl
dial_refuses fails (insecure_credentials ∷ []) w e h = cc
dial_refuses fails (a ∷ b ∷ ds) w e h = refl

otel-Telemetry : (fails : Bool) → Telemetry (otel fails) (view fails)
otel-Telemetry fails = record {
  same_resource = λ n v w. refl;
  dials = λ a ds w c h. dial_opens fails ds w c h;
  dial_fails = λ a ds w e h. dial_refuses fails ds w e h;
  same_trace_exporter = λ c w. refl;
  runs_tracer = λ r x f w. refl;
  same_metric_exporter = λ c w. refl;
  runs_meter = λ r x d w. refl;
  sets_tracer = λ t w. refl;
  sets_meter = λ m w. refl;
  sets_propagator = λ ps w. refl;
  stops_tracer = λ t w. refl;
  stops_meter = λ m w. refl;
  closes = λ c w. refl;
}

abbrev fresh : Process
fresh = record { conns = 0; tracers = 0; meters = 0; tracer = none; meter = none; propagator = [] }

abbrev in_cluster : Config
in_cluster = record {
  service_name = "orders";
  service_version = "1.4.0";
  endpoint = "otel-collector:4317";
  is_insecure = true;
  sample_ratio = finite false 0 (pos 0);
}

abbrev providers : Providers (otel false)
providers = record { tracer_provider = "tracer"; meter_provider = "meter"; conn = "conn" }

-- A failed exporter of metrics leaves the connection and the tracer provider open.
half_open : (setup (otel true) in_cluster fresh).1 ≡ record fresh { conns = 1; tracers = 1 }
unfolding setup
half_open = refl

setup-Left_example :
    Left
      (otel true)
      (view true)
      (otel-Telemetry true)
      in_cluster
      (view true fresh)
      (setup (otel true) in_cluster fresh)
setup-Left_example = setup-Left (otel true) (view true) (otel-Telemetry true) in_cluster fresh

in_cluster_set_up : (setup (otel false) in_cluster fresh).0 ≡ ok providers
unfolding setup
in_cluster_set_up = refl

shutdown-setup_example :
    (view false (shutdown (otel false) providers (setup (otel false) in_cluster fresh).1).1
      ≡ registered (otel false) (view false) (otel-Telemetry false) providers (view false fresh))
    × (((shutdown (otel false) providers (setup (otel false) in_cluster fresh).1).0 ≡ none)
        ↔ (failures (otel false) providers (setup (otel false) in_cluster fresh).1 ≡ no_failures))
shutdown-setup_example =
    shutdown-setup (otel false) (view false) (otel-Telemetry false) in_cluster fresh providers
      in_cluster_set_up

with_tls : (setup (otel false) (record in_cluster { is_insecure = false }) fresh).1 ≡ fresh
unfolding setup
with_tls = refl

two_failures :
    (shutdown (otel false) providers fresh).0
    ≡ some (plain "observability: shutdown errors: [deadline closing]")
unfolding shutdown error_text
two_failures = refl

-- The default of the ratio, and NaN, which is kept.
ratios :
    (ratio (finite true 3 (negsuc 1)) ≡ one) × (ratio (infinite true) ≡ one) × (ratio nan ≡ nan)
ratios = (refl, refl, refl)

traced : gin_middleware (otel false) "orders" ≡ "orders"
unfolding gin_middleware
traced = refl
