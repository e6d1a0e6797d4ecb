-- ===== src/Sync.antt =====
-- internal/sync: the planning model of one-way and bidirectional synchronization.
pub mod Platform
pub mod Errors
pub mod Entry
pub mod Pattern
pub mod State
pub mod Action
pub mod OneWay
pub mod Identity
pub mod TwoWay
