-- ===== src/Commit.antt =====
-- The `T2C2` envelope of commit_v2.rs: the digest of the operation, the codec, and the round trip.
pub mod Records
pub mod Codec
pub mod Parts
pub mod Fields
pub mod Contents
pub mod Bounded
pub mod Pieces
pub mod Sections
pub mod RoundTrip
