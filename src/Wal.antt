-- ===== src/Wal.antt =====
-- The `T2W2` transaction of transaction_v2.rs: its records and geometry, the validation of a
-- transaction against a base, the codec, and the round trip.
pub mod Records
pub mod Geometry
pub mod Nodes
pub mod Validate
pub mod Codec
pub mod Bodies
pub mod Seal
pub mod Sections
pub mod RoundTrip
