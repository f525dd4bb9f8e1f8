-- ===== src/Format.antt =====
-- Format-v2 sequence records (crates/tulya-core/src/persistent_sequence/format_v2.rs): the node and
-- root records, their constructors and their commitments, and the fixed-width codec.
pub mod Bytes
pub mod Records
pub mod Build
pub mod Codec
pub mod Fields
pub mod Reads
pub mod CodecLaws
pub mod RoundTrips
pub mod RootRoundTrip
pub mod ByteLists
pub mod Canonical
