-- ===== src/Observability/Shutdown.antt =====
-- The shutdown of observability/observability.go gives back what the set-up opened.
use idp_sdk.Common.{
  ℕ, ◌+◌, ◌-◌, ◌≡◌, refl, ap, ◌∙◌, ◌↔◌, Option, none, some, [], arith, GoError, Result, ok, err,
  ok-injective,
}
use idp_sdk.Observability.{
  Otel, Config, propagators, Providers, setup, shutdown, shutdown_error, appended,
}
use idp_sdk.Observability.Telemetry.{View, Telemetry}
use idp_sdk.Observability.Setup.{Left, all_open, setup-Left}

abbrev pub Failures : Type 0
Failures = Option GoError × Option GoError × Option GoError

undone : (n : ℕ) → n + 1 - 1 ≡ n
undone n = omega arith

abbrev pub no_failures : Failures
no_failures = (none, none, none)

told :
    (a b c : Option GoError)
    → (shutdown_error (appended (appended (appended [] a) b) c) ≡ none)
      ↔ ◌≡◌ {A = Failures} (a, b, c) no_failures
told none none none = (λ h. refl, λ h. refl)
told (some a) none none = (λ h. cc, λ h. cc)
told none (some b) none = (λ h. cc, λ h. cc)
told none none (some c) = (λ h. cc, λ h. cc)
told (some a) (some b) none = (λ h. cc, λ h. cc)
told (some a) none (some c) = (λ h. cc, λ h. cc)
told none (some b) (some c) = (λ h. cc, λ h. cc)
told (some a) (some b) (some c) = (λ h. cc, λ h. cc)

module _ (o : Otel) where
  -- What the three calls of Shutdown answer, each made where the one before failed, too.
  abbrev pub failures : Providers o → o.World → Failures
  failures ps w =
      let (a, w1) = o.shutdown_tracer ps.tracer_provider w in
      let (b, w2) = o.shutdown_meter ps.meter_provider w1 in (a, b, (o.close ps.conn w2).0)

  module _ (view : o.World → View o) (t : Telemetry o view) where
    abbrev all_closed : View o → View o
    all_closed v = record v { conns = v.conns - 1; tracers = v.tracers - 1; meters = v.meters - 1 }

    view-shutdown :
        (ps : Providers o) (w : o.World) → view (shutdown o ps w).1 ≡ all_closed (view w)
    unfolding shutdown
    view-shutdown ps w =
        rw (t.closes ps.conn _)
          (rw (t.stops_meter ps.meter_provider _) (rw (t.stops_tracer ps.tracer_provider w) refl))

    shutdown-none :
        (ps : Providers o) (w : o.World)
        → ((shutdown o ps w).0 ≡ none) ↔ (failures ps w ≡ no_failures)
    unfolding shutdown
    shutdown-none ps w = told _ _ _

    -- What stays registered.
    abbrev pub registered : Providers o → View o → View o
    registered ps v = record v {
      tracer = some ps.tracer_provider;
      meter = some ps.meter_provider;
      propagator = propagators;
    }

    closed_again :
        (ps : Providers o) (v : View o) → all_closed (all_open o view t ps v) ≡ registered ps v
    closed_again ps v = rw (undone v.conns) (rw (undone v.tracers) (rw (undone v.meters) refl))

    opened :
        (cfg : Config) (v : View o) (ps : Providers o) (r : Result (Providers o) × o.World)
        → r.0 ≡ ok ps
        → Left o view t cfg v r
        → view r.1 ≡ all_open o view t ps v
    opened cfg v ps (ok qs, w) is_ok (yes_b, h) =
        h ∙ ap (λ x. all_open o view t x v) (ok-injective is_ok)
    opened cfg v ps (err e, w) is_ok l = cc

    -- OpenTelemetry and gRPC keeping the view as documented, Setup and Shutdown cancel out: once the
    -- Shutdown of what Setup returned has run, whatever its calls answer, as many connections and
    -- providers are open as before; only the registrations stay. All three are shut down even where
    -- one fails, and the result is nil exactly where none does.
    pub shutdown-setup :
        (cfg : Config) (w : o.World) (ps : Providers o)
        → (setup o cfg w).0 ≡ ok ps
        → (view (shutdown o ps (setup o cfg w).1).1 ≡ registered ps (view w))
          × (((shutdown o ps (setup o cfg w).1).0 ≡ none)
              ↔ (failures ps (setup o cfg w).1 ≡ no_failures))
    shutdown-setup cfg w ps is_ok = (
      view-shutdown ps (setup o cfg w).1
          ∙ ap all_closed (opened cfg (view w) ps (setup o cfg w) is_ok (setup-Left o view t cfg w))
          ∙ closed_again ps (view w),
      shutdown-none ps (setup o cfg w).1,
    )
