-- ===== src/HotWal.antt =====
-- The foreground commit of the hot write-ahead log (src/hot_wal_commit.rs), and the classification
-- of its failures (src/error_classification.rs); the choice of a recovery (src/format_authority.rs)
-- and the probe of a frame (crates/tulya-core/src/persistent_sequence/hot_frame_v2.rs).
pub mod Authority
pub mod AuthorityLaws
pub mod Frame
pub mod FrameLaws
pub mod FrameEncode
pub mod FrameWrites
pub mod PaddedFooter
pub mod TornWrites
pub mod TornFrames
pub mod Errors
pub mod Classify
pub mod Contexts
pub mod Commit
pub mod CommitLaws
pub mod Durability
pub mod Session
pub mod Success
