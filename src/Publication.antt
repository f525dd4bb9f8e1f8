-- ===== src/Publication.antt =====
-- Publication records of Format v2: versions, checkpoints and the state that a checkpoint commits to
-- (crates/tulya-core/src/persistent_sequence/publication_v2.rs).
pub mod Records
pub mod Checks
pub mod Version
pub mod VersionLaws
pub mod Checkpoint
pub mod CheckpointPrefix
pub mod CheckpointParts
pub mod CheckpointLaws
