-- ===== src/Telemetry/Log.antt =====
-- telemetry/log.go: the log handler that adds the ids of the current span. A `slog.Handler` is a value
-- of a type `H` with the methods `SlogHandler`; `C` is `context.Context`.
pub mod Derived
use managed_services_lib.Common.{
  String, Bool, true, false, Option, List, [], ◌∷◌, ◌++◌, if◌then◌else◌,
}
use managed_services_lib.Failure.{Error}
use managed_services_lib.Client.Api.{Action}
use managed_services_lib.Http.{Level}

abbrev pub Attr : Type 0
Attr = String × String

-- `slog.Record`
pub record Record : Type 0 where
  pub level : Level
  pub message : String
  pub attrs : List Attr

-- `Record.AddAttrs`
abbrev pub add_attrs : Record → List Attr → Record
add_attrs r extra = record r { attrs = r.attrs ++ extra }

-- `trace.SpanContext`, with the ids as texts.
pub record SpanContext : Type 0 where
  pub is_valid : Bool
  pub trace_id : String
  pub span_id : String

-- `slog.Handler`
pub record SlogHandler (S C H : Type 0) : Type 0 where
  pub enabled : H → C → Level → Bool
  pub handle : H → C → Record → Action S (Option Error)
  pub with_attrs : H → List Attr → H
  pub with_group : H → String → H

-- `logHandler`, which embeds the handler that it wraps.
pub record LogHandler (H : Type 0) : Type 0 where
  pub handler : H

module _ {S C H : Type 0} (span_context_from_context : C → SpanContext)
    (i : SlogHandler S C H) where
  -- `logHandler.Handle`
  unfoldable pub handle : LogHandler H → C → Record → Action S (Option Error)
  handle h ctx r =
      let sc = span_context_from_context ctx in
      let r' =
        if sc.is_valid
        then add_attrs r (("trace_id", sc.trace_id) ∷ ("span_id", sc.span_id) ∷ [])
        else r in
      i.handle h.handler ctx r'

  -- `logHandler.WithAttrs`
  unfoldable pub with_attrs : LogHandler H → List Attr → LogHandler H
  with_attrs h attrs = record { handler = i.with_attrs h.handler attrs }

  -- `logHandler.WithGroup`
  unfoldable pub with_group : LogHandler H → String → LogHandler H
  with_group h name = record { handler = i.with_group h.handler name }

  -- The methods of `logHandler`; `Enabled` is the embedded handler's.
  unfoldable pub log_handler_methods : SlogHandler S C (LogHandler H)
  unfolding handle with_attrs with_group
  log_handler_methods = record {
    enabled = λ h ctx level. i.enabled h.handler ctx level;
    handle = handle;
    with_attrs = with_attrs;
    with_group = with_group;
  }

-- `LogHandler`
unfoldable pub log_handler : {H : Type 0} → H → LogHandler H
log_handler h = record { handler = h }
