-- ===== src/JobRunner.antt =====
-- client/jobrunner.go: dispatching and inspecting one-shot Kubernetes Jobs.
pub mod Types
pub mod Duration
pub mod Build
pub mod Inspect
pub mod Dispatch
pub mod Cluster
pub mod Contract
pub mod History
pub mod Race
pub mod Available
pub mod Isolation
pub mod Polling
pub mod Retry
