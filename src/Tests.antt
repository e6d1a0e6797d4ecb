-- ===== src/Tests.antt =====
-- Runs on small trees, and the theorems at concrete inputs.
mod Samples
mod OneWay
mod TwoWay
mod Entries
mod Run
mod Retry
mod Session
mod Transfer
mod EventStream
mod Jobs
mod Gather
