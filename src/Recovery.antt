-- ===== src/Recovery.antt =====
-- The scan of recovery_v2.rs over the frames of the hot log: its result, its end, and the states that
-- it recovers.
pub mod Scan
pub mod Fuel
pub mod Turns
pub mod Logs
pub mod Crash
