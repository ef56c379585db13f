-- ===== src/Telemetry.antt =====
-- telemetry/log.go, telemetry/telemetry.go: the log handler and the set-up of OpenTelemetry.
pub mod Log
pub mod Setup
