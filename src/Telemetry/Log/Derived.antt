-- ===== src/Telemetry/Log/Derived.antt =====
-- telemetry/log.go: loggers derived from a logger with the handler.
use mathlib.Core.List.{append-nil}
use managed_services_lib.Common.{
  String, ◌≡◌, refl, inl, inr, Bool-cases, List, [], ◌∷◌, ◌++◌, if◌then◌else◌,
}
use managed_services_lib.Http.{Level}
use managed_services_lib.Telemetry.Log.{
  Attr, Record, SpanContext, SlogHandler, LogHandler, handle, log_handler_methods, log_handler,
}

-- `logger.With(attrs…)` and `logger.WithGroup(name)`
pub data Derivation : Type 0 where
  attrs : List Attr → Derivation
  group : String → Derivation

abbrev pub derive : {S C H : Type 0} → SlogHandler S C H → List Derivation → H → H
derive i [] h = h
derive i (attrs extra ∷ ds) h = derive i ds (i.with_attrs h extra)
derive i (group name ∷ ds) h = derive i ds (i.with_group h name)

-- The attributes of a record when it is logged in a span.
abbrev pub in_span : SpanContext → List Attr → List Attr
in_span sc own =
    own ++ (if sc.is_valid then ("trace_id", sc.trace_id) ∷ ("span_id", sc.span_id) ∷ [] else [])

module _ {S C H : Type 0} (span : C → SpanContext) (i : SlogHandler S C H) where
  derive-log_handler :
      (ds : List Derivation) (h : H)
      → derive (log_handler_methods span i) ds (log_handler h) ≡ log_handler (derive i ds h)
  unfolding log_handler_methods log_handler
  derive-log_handler [] h = refl
  derive-log_handler (attrs extra ∷ ds) h = derive-log_handler ds (i.with_attrs h extra)
  derive-log_handler (group name ∷ ds) h = derive-log_handler ds (i.with_group h name)

  handle-in_span :
      (h : LogHandler H) (ctx : C) (r : Record) (s : S)
      → handle span i h ctx r s
        ≡ i.handle h.handler ctx (record r { attrs = in_span (span ctx) r.attrs }) s
  unfolding handle
  handle-in_span h ctx r s = elim (Bool-cases (span ctx).is_valid) [
    | inl e ↦ rw (e, handle)
    | inr e ↦ rw (e, handle, append-nil)
  ]

  -- However a logger is derived from one with the handler, by attributes and groups in any order, it
  -- logs and filters as the same derivation of the plain handler does, but for the ids of the span,
  -- which come after the record's own attributes if the context has a valid span.
  pub handle-derive :
      (ds : List Derivation) (h : H) (ctx : C) (r : Record) (level : Level) (s : S)
      → let m = log_handler_methods span i in
        let derived = derive m ds (log_handler h) in
        (m.handle derived ctx r s
          ≡ i.handle (derive i ds h) ctx (record r { attrs = in_span (span ctx) r.attrs }) s)
        × (m.enabled derived ctx level ≡ i.enabled (derive i ds h) ctx level)
  unfolding log_handler_methods log_handler
  handle-derive ds h ctx r level s =
      rw (derive-log_handler ds h) (handle-in_span (log_handler (derive i ds h)) ctx r s, refl)
