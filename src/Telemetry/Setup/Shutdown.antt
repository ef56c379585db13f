-- ===== src/Telemetry/Setup/Shutdown.antt =====
-- telemetry/telemetry.go: whether the returned function stops all that `Setup` has started.
use managed_services_lib.Common.{
  String, ◌≡◌, ◌≢◌, ◌↔◌, ◌⊎◌, inl, inr, Bool, true, false, ◌==◌, if◌then◌else◌, arith, Bool-cases,
}
use managed_services_lib.Failure.{Error, ok, err, Result-cases}
use managed_services_lib.Telemetry.Setup.Providers.{Provider, meter, tracer, Keeps, Sets, IsSdk}
use managed_services_lib.Telemetry.Setup.{
  Sdk, Installed, setup, setup_metrics, setup_traces, install, shutdown_both,
}

-- The world after the call of the function that `Setup` has returned.
abbrev pub after_shutdown : {S : Type 0} → Installed S × S → S
after_shutdown (i, s) = (i.shutdown s).1

module _ {S R X Y M T : Type 0} (sdk : Sdk S R X Y M T) where
  -- `Setup` gets as far as the trace exporter, and that fails.
  abbrev traces_fail : R → S → Bool
  traces_fail res s = elim (sdk.new_metric_exporter s).0 [
    | err e ↦ false
    | ok x ↦
        (elim (sdk.new_trace_exporter
          (sdk.new_meter_provider x res (sdk.new_metric_exporter s).1).1).0 [
            | err e ↦ true
            | ok y ↦ false
          ])
  ]

  abbrev pub trace_exporter_fails : (String → String) → String → S → Bool
  trace_exporter_fails env service_name s =
      if env "OTEL_EXPORTER_OTLP_ENDPOINT" == ""
      then false
      else elim (sdk.new_resource service_name (sdk.hostname s) s).0 [
        | err e ↦ false
        | ok res ↦ traces_fail res (sdk.new_resource service_name (sdk.hostname s) s).1
      ]

module _ {S R X Y M T : Type 0} (sdk : Sdk S R X Y M T) (running : S → Provider M T → Bool)
    (k : IsSdk sdk running) where
  -- Both providers are stopped, and no other.
  install-shutdown :
      (mp : M) (tp : T) (s : S) (p : Provider M T)
      → (((p ≡ meter mp) ⊎ (p ≡ tracer tp))
          × (running (after_shutdown (install sdk mp tp s)) p ≡ false))
        ⊎ ((p ≢ meter mp)
            × (p ≢ tracer tp)
            × (running (after_shutdown (install sdk mp tp s)) p ≡ running s p))
  unfolding install shutdown_both
  install-shutdown mp tp s p =
      let a : S = sdk.set_meter_provider mp s in
      let b : S = sdk.set_tracer_provider tp a in
      let c : S = sdk.set_text_map_propagator b in
      let d : S = (sdk.start_runtime mp c).1 in
      let e : S = (sdk.shutdown_tracer tp d).1 in
      ground (
        arith,
        k.set_meter_provider mp s p,
        k.set_tracer_provider tp a p,
        k.set_text_map_propagator b p,
        k.start_runtime mp c p,
        k.shutdown_tracer tp d p,
        k.shutdown_meter mp e p,
      )

  -- With a trace exporter the meter provider is stopped; without one nothing is.
  setup_traces-ok :
      (res : R) (mp : M) (s : S) (y : Y)
      → (sdk.new_trace_exporter s).0 ≡ ok y
      → Sets running (meter mp) false s (after_shutdown (setup_traces sdk res mp s))
  unfolding setup_traces
  setup_traces-ok res mp s y e p =
      let a : S = (sdk.new_trace_exporter s).1 in
      let tp : T = (sdk.new_tracer_provider y res a).0 in
      let b : S = (sdk.new_tracer_provider y res a).1 in
      let (fresh, made) = k.new_tracer_provider y res a in
      ground (
        arith,
        e,
        k.new_trace_exporter s p,
        k.new_trace_exporter s (tracer tp),
        fresh,
        made p,
        install-shutdown mp tp b p,
      )

  setup_traces-err :
      (res : R) (mp : M) (s : S) (x : Error)
      → (sdk.new_trace_exporter s).0 ≡ err x
      → Keeps running s (after_shutdown (setup_traces sdk res mp s))
  unfolding setup_traces
  setup_traces-err res mp s x e p = ground (arith, e, k.new_trace_exporter s p)

  setup_metrics-released :
      (res : R) (s : S)
      → traces_fail sdk res s ≡ false
      → Keeps running s (after_shutdown (setup_metrics sdk res s))
  unfolding setup_metrics
  setup_metrics-released res s h p = elim (Result-cases (sdk.new_metric_exporter s).0) [
    | inr (x, e) ↦ ground (arith, e, k.new_metric_exporter s p)
    | inl (x, e) ↦
        let a : S = (sdk.new_metric_exporter s).1 in
        let mp : M = (sdk.new_meter_provider x res a).0 in
        let b : S = (sdk.new_meter_provider x res a).1 in
        let (fresh, made) = k.new_meter_provider x res a in
        (elim (Result-cases (sdk.new_trace_exporter b).0) [
          | inr (y, f) ↦ ground (arith, e, f, h)
          | inl (y, f) ↦ ground (
            arith,
            e,
            fresh,
            made p,
            k.new_metric_exporter s p,
            k.new_metric_exporter s (meter mp),
            setup_traces-ok res mp b y f p,
          )
        ])
  ]

  -- A provider that did not run before `Setup` and runs after the returned function.
  abbrev Left : S → S → Type 0
  Left s t = (p : Provider M T) × (running s p ≡ false) × (running t p ≡ true)

  setup_metrics-Left :
      (res : R) (s : S)
      → traces_fail sdk res s ≡ true
      → Left s (after_shutdown (setup_metrics sdk res s))
  unfolding setup_metrics
  setup_metrics-Left res s h = elim (Result-cases (sdk.new_metric_exporter s).0) [
    | inr (x, e) ↦ absurd (ground (arith, e, h))
    | inl (x, e) ↦
        let a : S = (sdk.new_metric_exporter s).1 in
        let mp : M = (sdk.new_meter_provider x res a).0 in
        let b : S = (sdk.new_meter_provider x res a).1 in
        let (fresh, made) = k.new_meter_provider x res a in
        (elim (Result-cases (sdk.new_trace_exporter b).0) [
          | inl (y, f) ↦ absurd (ground (arith, e, f, h))
          | inr (y, f) ↦ (
            meter mp,
            ground (arith, fresh, k.new_metric_exporter s (meter mp)),
            ground (arith, e, made (meter mp), setup_traces-err res mp b y f (meter mp)),
          )
        ])
  ]

  setup-released :
      (env : String → String) (service_name : String) (s : S)
      → trace_exporter_fails sdk env service_name s ≡ false
      → Keeps running s (after_shutdown (setup sdk env service_name s))
  unfolding setup
  setup-released env service_name s h p =
      let a : S = (sdk.new_resource service_name (sdk.hostname s) s).1 in
      elim (Bool-cases (env "OTEL_EXPORTER_OTLP_ENDPOINT" == "")) [
        | inl off ↦ ground (arith, off)
        | inr on ↦ (elim (Result-cases (sdk.new_resource service_name (sdk.hostname s) s).0) [
          | inr (x, e) ↦ ground (arith, on, e, k.new_resource service_name (sdk.hostname s) s p)
          | inl (res, e) ↦ ground (
            arith,
            on,
            e,
            k.new_resource service_name (sdk.hostname s) s p,
            setup_metrics-released res a (ground (arith, on, e, h)) p,
          )
        ])
      ]

  setup-Left :
      (env : String → String) (service_name : String) (s : S)
      → trace_exporter_fails sdk env service_name s ≡ true
      → Left s (after_shutdown (setup sdk env service_name s))
  unfolding setup
  setup-Left env service_name s h =
      let a : S = (sdk.new_resource service_name (sdk.hostname s) s).1 in
      elim (Bool-cases (env "OTEL_EXPORTER_OTLP_ENDPOINT" == "")) [
        | inl off ↦ absurd (ground (arith, off, h))
        | inr on ↦ (elim (Result-cases (sdk.new_resource service_name (sdk.hostname s) s).0) [
          | inr (x, e) ↦ absurd (ground (arith, on, e, h))
          | inl (res, e) ↦
              let (p, off, still) = setup_metrics-Left res a (ground (arith, on, e, h)) in
              (
                p,
                ground (arith, off, k.new_resource service_name (sdk.hostname s) s p),
                ground (arith, on, e, still),
              )
        ])
      ]

  -- `Setup` and then the function that it returns leave exactly the providers running that ran
  -- before, if and only if the trace exporter does not fail: on every other path, errors included,
  -- nothing that `Setup` started goes on.
  pub setup-shutdown_iff :
      (env : String → String) (service_name : String) (s : S)
      → Keeps running s (after_shutdown (setup sdk env service_name s))
        ↔ (trace_exporter_fails sdk env service_name s ≡ false)
  setup-shutdown_iff env service_name s = (
    λ keeps. elim (Bool-cases (trace_exporter_fails sdk env service_name s)) [
      | inr e ↦ e
      | inl e ↦
          let (p, off, still) = setup-Left env service_name s e in
          absurd (ground (arith, off, still, keeps p))
    ],
    setup-released env service_name s,
  )
