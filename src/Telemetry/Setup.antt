-- ===== src/Telemetry/Setup.antt =====
-- telemetry/telemetry.go: `Setup`. The OpenTelemetry SDK is the record `Sdk`: `S` is the world, `R` a
-- resource, `X` and `Y` the exporters of metrics and of traces, `M` and `T` the providers.
pub mod Providers
pub mod Shutdown
use managed_services_lib.Common.{
  String, Bool, true, false, Option, none, some, List, [], ◌∷◌, ◌++◌, ◌==◌, if◌then◌else◌,
}
use managed_services_lib.Failure.{Error, Result, ok, err}
use managed_services_lib.Client.Api.{Action}

pub record Sdk (S R X Y M T : Type 0) : Type 0 where
  -- `os.Hostname`, "" if it fails
  pub hostname : S → String
  -- `resource.New` with the attributes service.name and service.instance.id
  pub new_resource : String → String → Action S (Result R)
  -- `otlpmetrichttp.New` and `sdkmetric.NewMeterProvider` with a periodic reader
  pub new_metric_exporter : Action S (Result X)
  pub new_meter_provider : X → R → Action S M
  -- `otlptracehttp.New` and `sdktrace.NewTracerProvider` with a batcher
  pub new_trace_exporter : Action S (Result Y)
  pub new_tracer_provider : Y → R → Action S T
  -- the globals of the package `otel`
  pub set_meter_provider : M → S → S
  pub set_tracer_provider : T → S → S
  pub set_text_map_propagator : S → S
  -- `runtime.Start`
  pub start_runtime : M → Action S (Option Error)
  pub shutdown_tracer : T → Action S (Option Error)
  pub shutdown_meter : M → Action S (Option Error)

-- What `Setup` returns: the function to call on shutdown, which gives the errors that are joined (none
-- of them is nil), and an error.
pub record Installed (S : Type 0) : Type 0 where
  pub shutdown : Action S (List Error)
  pub error : Option Error

module _ {S : Type 0} where
  -- `noop`
  abbrev noop : Action S (List Error)
  noop s = ([], s)

  abbrev failed_setup : Error → S → Installed S × S
  failed_setup e s = (record { shutdown = noop; error = some e }, s)

abbrev errors_of : Option Error → List Error
errors_of none = []
errors_of (some e) = e ∷ []

module _ {S R X Y M T : Type 0} (sdk : Sdk S R X Y M T) where
  -- `errors.Join(tp.Shutdown(ctx), mp.Shutdown(ctx))`
  unfoldable pub shutdown_both : M → T → Action S (List Error)
  shutdown_both mp tp s =
      let (e, s') = sdk.shutdown_tracer tp s in
      let (f, s'') = sdk.shutdown_meter mp s' in (errors_of e ++ errors_of f, s'')

  -- The end of `Setup`, once both providers are there.
  unfoldable pub install : M → T → S → Installed S × S
  install mp tp s =
      let s' =
        sdk.set_text_map_propagator (sdk.set_tracer_provider tp (sdk.set_meter_provider mp s)) in
      let (e, s'') = sdk.start_runtime mp s' in
      (record { shutdown = shutdown_both mp tp; error = e }, s'')

  -- From the trace exporter on.
  unfoldable pub setup_traces : R → M → S → Installed S × S
  setup_traces res mp s =
      let (r, s') = sdk.new_trace_exporter s in
      elim r [
        | err e ↦ failed_setup e s'
        | ok exporter ↦
            (let (tp, s'') = sdk.new_tracer_provider exporter res s' in install mp tp s'')
      ]

  -- From the metric exporter on.
  unfoldable pub setup_metrics : R → S → Installed S × S
  setup_metrics res s =
      let (r, s') = sdk.new_metric_exporter s in
      elim r [
        | err e ↦ failed_setup e s'
        | ok exporter ↦
            (let (mp, s'') = sdk.new_meter_provider exporter res s' in setup_traces res mp s'')
      ]

  -- `os.Getenv` is the function `env`.
  unfoldable pub setup : (String → String) → String → S → Installed S × S
  setup env service_name s =
      if env "OTEL_EXPORTER_OTLP_ENDPOINT" == ""
      then (record { shutdown = noop; error = none }, s)
      else (let (r, s') = sdk.new_resource service_name (sdk.hostname s) s in
          elim r [ err e ↦ failed_setup e s' | ok res ↦ setup_metrics res s' ])

-- `Transport`: `new_transport` is `otelhttp.NewTransport`.
unfoldable pub transport : {H : Type 0} → H → (H → H) → Option H → H
transport default_transport new_transport none = new_transport default_transport
transport default_transport new_transport (some base) = new_transport base
