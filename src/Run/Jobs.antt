-- ===== src/Run/Jobs.antt =====
-- internal/app/sync/job.go and internal/syncjob/store.go: named synchronization jobs.
pub mod Store
pub mod Commands
pub mod Laws
pub mod Guards
