-- ===== src/Examples.antt =====
-- Tests, and the results applied to concrete inputs.
pub mod Data
pub mod Names
pub mod Releases
pub mod Items
pub mod Runs
pub mod Logs
pub mod Playback
pub mod Scans
pub mod Accounts
pub mod Syncs
