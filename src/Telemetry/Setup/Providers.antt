-- ===== src/Telemetry/Setup/Providers.antt =====
-- telemetry/telemetry.go: what is asked of the OpenTelemetry SDK.
use managed_services_lib.Common.{String, ◌≡◌, ◌≢◌, ◌⊎◌, Bool, true, false}
use managed_services_lib.Telemetry.Setup.{Sdk}

-- The two kinds of providers, each with workers of its own (a periodic reader, a batcher).
pub data Provider (M T : Type 0) : Type 0 where
  meter : M → Provider M T
  tracer : T → Provider M T

-- A step that changes no provider, starts a new one, or stops one.
abbrev pub Keeps : {S P : Type 0} → (S → P → Bool) → S → S → Type 0
Keeps {P = P} running s t = (p : P) → running t p ≡ running s p

abbrev pub Sets : {S P : Type 0} → (S → P → Bool) → P → Bool → S → S → Type 0
Sets {P = P} running q b s t =
    (p : P) → ((p ≡ q) × (running t p ≡ b)) ⊎ ((p ≢ q) × (running t p ≡ running s p))

-- What the SDK documents of its providers: a new one runs, one that is shut down runs no more, with an
-- error or without, and nothing else starts or stops one.
pub record IsSdk {S R X Y M T : Type 0} (sdk : Sdk S R X Y M T) (running : S → Provider M T → Bool)
    : Type 0 where
  pub new_resource : (name host : String) (s : S) → Keeps running s (sdk.new_resource name host s).1
  pub new_metric_exporter : (s : S) → Keeps running s (sdk.new_metric_exporter s).1
  pub new_meter_provider :
      (x : X) (r : R) (s : S)
      → (running s (meter (sdk.new_meter_provider x r s).0) ≡ false)
        × Sets running
            (meter (sdk.new_meter_provider x r s).0)
            true
            s
            (sdk.new_meter_provider x r s).1
  pub new_trace_exporter : (s : S) → Keeps running s (sdk.new_trace_exporter s).1
  pub new_tracer_provider :
      (y : Y) (r : R) (s : S)
      → (running s (tracer (sdk.new_tracer_provider y r s).0) ≡ false)
        × Sets running
            (tracer (sdk.new_tracer_provider y r s).0)
            true
            s
            (sdk.new_tracer_provider y r s).1
  pub set_meter_provider : (m : M) (s : S) → Keeps running s (sdk.set_meter_provider m s)
  pub set_tracer_provider : (t : T) (s : S) → Keeps running s (sdk.set_tracer_provider t s)
  pub set_text_map_propagator : (s : S) → Keeps running s (sdk.set_text_map_propagator s)
  pub start_runtime : (m : M) (s : S) → Keeps running s (sdk.start_runtime m s).1
  pub shutdown_tracer :
      (t : T) (s : S) → Sets running (tracer t) false s (sdk.shutdown_tracer t s).1
  pub shutdown_meter : (m : M) (s : S) → Sets running (meter m) false s (sdk.shutdown_meter m s).1
