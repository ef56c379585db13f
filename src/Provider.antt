-- ===== src/Provider.antt =====
-- provider/: what providers build on and implement.
pub mod Base
pub mod ServiceJob
pub mod BackupJob
pub mod Interface
