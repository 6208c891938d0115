-- ===== src/Observability/Setup.antt =====
-- What the set-up of observability/observability.go leaves open.
use idp_sdk.Common.{
  ◌+◌, String, ◌≡◌, refl, ◌∙◌, ◌⊎◌, inl, inr, Bool, true, false, ◌<>◌, some, [], ◌∷◌, pos, GoError,
  Result, ok, err,
}
use idp_sdk.Common.Failure.{wrap_with}
use idp_sdk.Observability.{
  Otel, Config, Float64, insecure_credentials, dial_options, ratio, propagators, Providers, setup,
  with_metric_exporter, with_trace_exporter, with_conn, with_resource,
}
use idp_sdk.Observability.Telemetry.{View, Telemetry}

module _ (o : Otel) (view : o.World → View o) (t : Telemetry o view) where
  abbrev pub with_connection : View o → View o
  with_connection v = record v { conns = v.conns + 1 }

  abbrev pub with_tracer : View o → View o
  with_tracer v = record (with_connection v) { tracers = v.tracers + 1 }

  abbrev pub all_open : Providers o → View o → View o
  all_open ps v = record (with_tracer v) {
    meters = v.meters + 1;
    tracer = some ps.tracer_provider;
    meter = some ps.meter_provider;
    propagator = propagators;
  }

  abbrev pub FailedAt : String → GoError → Type 0
  FailedAt prefix e = (c : GoError) × (e ≡ wrap_with prefix c)

  -- What a set-up leaves behind, from the view before it: by the call that failed, where one did.
  abbrev pub Left : Config → View o → Result (Providers o) × o.World → Type 0
  Left cfg v (ok ps, w) = (cfg.is_insecure ≡ true) × (view w ≡ all_open ps v)
  Left cfg v (err e, w) =
      (FailedAt "observability: building resources: " e × (view w ≡ v))
      ⊎ (FailedAt ("observability: dialing collector at " <> cfg.endpoint <> ": ") e × (view w ≡ v))
      ⊎ (FailedAt "observability: create trace exporter: " e × (view w ≡ with_connection v))
      ⊎ (FailedAt "observability: creating metric exporter: " e × (view w ≡ with_tracer v))

  registered :
      (ps : Providers o) (v : View o) (w : o.World)
      → view w ≡ record (with_tracer v) { meters = v.meters + 1 }
      → view (
          o.set_propagator propagators
            (o.set_meter_provider ps.meter_provider (o.set_tracer_provider ps.tracer_provider w)))
        ≡ all_open ps v
  registered ps v w h =
      rw (t.sets_propagator propagators _) (
        rw (t.sets_meter ps.meter_provider _) (rw (t.sets_tracer ps.tracer_provider w) (rw h refl)))

  with_metric_exporter-Left :
      (cfg : Config) (v : View o) (res : o.Resource) (c : o.Conn) (tp : o.TracerProvider)
      → cfg.is_insecure ≡ true
      → (r : Result o.MetricExporter × o.World) → view r.1 ≡ with_tracer v
      → Left cfg v (with_metric_exporter o res c tp r)
  with_metric_exporter-Left cfg v res c tp yes_b (err e, w) h = inr (inr (inr ((e, refl), h)))
  with_metric_exporter-Left cfg v res c tp yes_b (ok x, w) h = (
    yes_b,
    registered
        (record {
          tracer_provider = tp;
          meter_provider = (o.new_meter_provider res x (pos 15_000_000_000) w).0;
          conn = c;
        })
        v _ (t.runs_meter res x (pos 15_000_000_000) w ∙ rw h refl),
  )

  with_trace_exporter-Left :
      (cfg : Config) (v : View o) (f : Float64) (res : o.Resource) (c : o.Conn)
      → cfg.is_insecure ≡ true
      → (r : Result o.TraceExporter × o.World) → view r.1 ≡ with_connection v
      → Left cfg v (with_trace_exporter o f res c r)
  with_trace_exporter-Left cfg v f res c yes_b (err e, w) h = inr (inr (inl ((e, refl), h)))
  with_trace_exporter-Left cfg v f res c yes_b (ok x, w) h =
      let (tp, w') = o.new_tracer_provider res x f w in
      with_metric_exporter-Left cfg v res c tp yes_b (o.new_metric_exporter c w')
        (t.same_metric_exporter c w' ∙ t.runs_tracer res x f w ∙ rw h refl)

  with_conn-Left :
      (cfg : Config) (v : View o) (f : Float64) (res : o.Resource) (r : Result o.Conn × o.World)
      → ((c : o.Conn) → r.0 ≡ ok c → (cfg.is_insecure ≡ true) × (view r.1 ≡ with_connection v))
      → ((e : GoError) → r.0 ≡ err e → view r.1 ≡ v)
      → Left cfg v (with_conn o cfg.endpoint f res r)
  with_conn-Left cfg v f res (err e, w) dials fails = inr (inl ((e, refl), fails e refl))
  with_conn-Left cfg v f res (ok c, w) dials fails =
      let (yes_b, h) = dials c refl in
      with_trace_exporter-Left cfg v f res c yes_b (o.new_trace_exporter c w)
        (t.same_trace_exporter c w ∙ h)

  dialed : (b : Bool) → dial_options b ≡ insecure_credentials ∷ [] → b ≡ true
  dialed true h = refl
  dialed false h = cc

  with_resource-Left :
      (cfg : Config) (v : View o) (r : Result o.Resource × o.World)
      → view r.1 ≡ v
      → Left cfg v (with_resource o cfg r)
  with_resource-Left cfg v (err e, w) h = inl ((e, refl), h)
  with_resource-Left cfg v (ok res, w) h =
      with_conn-Left cfg v (ratio cfg.sample_ratio) res
        (o.new_client cfg.endpoint (dial_options cfg.is_insecure) w)
        (λ c is_ok.
          let (given, opened) = t.dials cfg.endpoint _ w c is_ok in
          (dialed cfg.is_insecure given, opened ∙ rw h refl))
        (λ e is_err. t.dial_fails cfg.endpoint _ w e is_err ∙ h)

  -- OpenTelemetry and gRPC keeping the view as documented, Setup succeeds for an insecure collector
  -- only, and then exactly a connection, a tracer provider and a meter provider more are open, and
  -- registered with the propagators. Where it fails, nothing is registered, and the error tells what is
  -- left: nothing is open where the resource or the connection cannot be made; the connection stays
  -- open where the trace exporter cannot, and the connection and a running tracer provider where the
  -- metric exporter cannot.
  pub setup-Left : (cfg : Config) (w : o.World) → Left cfg (view w) (setup o cfg w)
  unfolding setup
  setup-Left cfg w =
      with_resource-Left cfg (view w) (o.new_resource cfg.service_name cfg.service_version w)
        (t.same_resource cfg.service_name cfg.service_version w)
