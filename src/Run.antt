-- ===== src/Run.antt =====
-- internal/app/sync: how a plan is carried out, action by action.
pub mod Trees
pub mod Names
pub mod Verify
pub mod Apply
pub mod Plans
pub mod Frame
pub mod Journal
pub mod Difference
pub mod Conflicts
pub mod Request
pub mod Snapshots
pub mod Session
pub mod Ids
pub mod Jobs
pub mod Recovery
