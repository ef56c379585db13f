-- ===== src/Model.antt =====
-- The contract's types (model/).
pub mod Kubernetes
pub mod Contract
