-- ===== src/Tests/Telemetry.antt =====
-- An SDK that numbers its providers, and a log handler that counts.
use managed_services_lib.Common.{
  ℕ, ◌+◌, String, ◌≡◌, ◌≢◌, ◌↔◌, ◌⊎◌, refl, inr, Bool, true, false, not, ◌&&◌, none, List, [], ◌∷◌,
  ◌++◌, arith, ltb, nat_eq, if◌then◌else◌,
}
use managed_services_lib.Failure.{ok}
use managed_services_lib.Http.{info}
use managed_services_lib.Telemetry.Setup.{Sdk, setup}
use managed_services_lib.Telemetry.Setup.Providers.{Provider, meter, tracer, Keeps, Sets, IsSdk}
use managed_services_lib.Telemetry.Setup.Shutdown.{
  after_shutdown, trace_exporter_fails, setup-shutdown_iff,
}
use managed_services_lib.Telemetry.Log.{
  Attr, Record, SpanContext, SlogHandler, log_handler_methods, log_handler,
}
use managed_services_lib.Telemetry.Log.Derived.{Derivation, derive, in_span, handle-derive}

-- The numbers below `next` are given away; a provider runs until it is stopped.
record Pool : Type 0 where
  next : ℕ
  stopped : ℕ → Bool

record Providers : Type 0 where
  meters : Pool
  tracers : Pool

abbrev set_stopped : ℕ → Bool → Pool → Pool
set_stopped n b p = record p { stopped = λ m. if nat_eq m n then b else p.stopped m }

abbrev take : Pool → ℕ × Pool
take p = (p.next, record (set_stopped p.next false p) { next = p.next + 1 })

abbrev live : Pool → ℕ → Bool
live p n = ltb n p.next && not (p.stopped n)

abbrev running : Providers → Provider ℕ ℕ → Bool
running s (meter n) = live s.meters n
running s (tracer n) = live s.tracers n

abbrev sdk : Sdk Providers String ℕ ℕ ℕ ℕ
sdk = record {
  hostname = λ s. "pod-1";
  new_resource = λ name host s. (ok name, s);
  new_metric_exporter = λ s. (ok 0, s);
  new_meter_provider = λ x r s. ((take s.meters).0, record s { meters = (take s.meters).1 });
  new_trace_exporter = λ s. (ok 0, s);
  new_tracer_provider = λ y r s. ((take s.tracers).0, record s { tracers = (take s.tracers).1 });
  set_meter_provider = λ m s. s;
  set_tracer_provider = λ t s. s;
  set_text_map_propagator = λ s. s;
  start_runtime = λ m s. (none, s);
  shutdown_tracer = λ t s. (none, record s { tracers = set_stopped t true s.tracers });
  shutdown_meter = λ m s. (none, record s { meters = set_stopped m true s.meters });
}

live-take :
    (p : Pool) (n : ℕ)
    → ((n ≡ p.next) × (live (take p).1 n ≡ true)) ⊎ ((n ≢ p.next) × (live (take p).1 n ≡ live p n))
live-take p n = ground arith

live-set_stopped :
    (p : Pool) (m n : ℕ)
    → ((n ≡ m) × (live (set_stopped m true p) n ≡ false))
      ⊎ ((n ≢ m) × (live (set_stopped m true p) n ≡ live p n))
live-set_stopped p m n = ground arith

fresh : (p : Pool) → live p p.next ≡ false
fresh p = ground arith

meter_made :
    (s : Providers)
    → Sets running (meter s.meters.next) true s (record s { meters = (take s.meters).1 })
meter_made s (meter n) = ground (arith, live-take s.meters n)
meter_made s (tracer n) = inr (λ e. cc e, refl)

tracer_made :
    (s : Providers)
    → Sets running (tracer s.tracers.next) true s (record s { tracers = (take s.tracers).1 })
tracer_made s (tracer n) = ground (arith, live-take s.tracers n)
tracer_made s (meter n) = inr (λ e. cc e, refl)

meter_stopped :
    (m : ℕ) (s : Providers)
    → Sets running (meter m) false s (record s { meters = set_stopped m true s.meters })
meter_stopped m s (meter n) = ground (arith, live-set_stopped s.meters m n)
meter_stopped m s (tracer n) = inr (λ e. cc e, refl)

tracer_stopped :
    (t : ℕ) (s : Providers)
    → Sets running (tracer t) false s (record s { tracers = set_stopped t true s.tracers })
tracer_stopped t s (tracer n) = ground (arith, live-set_stopped s.tracers t n)
tracer_stopped t s (meter n) = inr (λ e. cc e, refl)

sdk-IsSdk : IsSdk sdk running
sdk-IsSdk = record {
  new_resource = λ name host s p. refl;
  new_metric_exporter = λ s p. refl;
  new_meter_provider = λ x r s. (fresh s.meters, meter_made s);
  new_trace_exporter = λ s p. refl;
  new_tracer_provider = λ y r s. (fresh s.tracers, tracer_made s);
  set_meter_provider = λ m s p. refl;
  set_tracer_provider = λ t s p. refl;
  set_text_map_propagator = λ s p. refl;
  start_runtime = λ m s p. refl;
  shutdown_tracer = tracer_stopped;
  shutdown_meter = meter_stopped;
}

abbrev no_providers : Providers
no_providers =
    let pool : Pool = record { next = 0; stopped = λ n. false } in
    record { meters = pool; tracers = pool }

abbrev endpoint : String → String
endpoint name = "http://collector:4318"

setup-shutdown_iff_example :
    Keeps running no_providers (after_shutdown (setup sdk endpoint "postgres" no_providers))
    ↔ (trace_exporter_fails sdk endpoint "postgres" no_providers ≡ false)
setup-shutdown_iff_example =
    setup-shutdown_iff sdk running sdk-IsSdk endpoint "postgres" no_providers

-- A handler whose value is the list of its attributes; the world is the list of the logged lines.
abbrev lines : SlogHandler (List (List Attr)) String (List Attr)
lines = record {
  enabled = λ h ctx level. true;
  handle = λ h ctx r s. (none, (h ++ r.attrs) ∷ s);
  with_attrs = λ h extra. h ++ extra;
  with_group = λ h name. h;
}

abbrev span : String → SpanContext
span ctx = record { is_valid = true; trace_id = ctx; span_id = "00f0" }

abbrev line : Record
line = record { level = info; message = "created"; attrs = ("id", "ms-7") ∷ [] }

abbrev derivations : List Derivation
derivations = Derivation.attrs (("team", "42") ∷ []) ∷ Derivation.group "job" ∷ []

handle-derive_example :
    let m = log_handler_methods span lines in
    let derived = derive m derivations (log_handler []) in
    (m.handle derived "4bf9" line []
      ≡ lines.handle
          (derive lines derivations [])
          "4bf9"
          (record line { attrs = in_span (span "4bf9") line.attrs })
          [])
    × (m.enabled derived "4bf9" info ≡ lines.enabled (derive lines derivations []) "4bf9" info)
handle-derive_example = handle-derive span lines derivations [] "4bf9" line info []
