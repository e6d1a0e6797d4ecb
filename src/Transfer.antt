-- ===== src/Transfer.antt =====
-- internal/transfer: recursive uploads and downloads.
pub mod Pool
pub mod Gather
