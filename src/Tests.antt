-- ===== src/Tests.antt =====
-- Concrete runs, and each result at an input that meets its hypotheses.
mod Memory
mod Jobs
mod Providers
mod Requests
mod Routes
mod Routing
mod Lookups
mod Discovery
mod Histories
mod Servers
mod Polls
mod Telemetry
mod Health
mod Races
mod Retries
mod Paused
mod Isolation
