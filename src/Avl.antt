-- ===== src/Avl.antt =====
-- The persistent AVL sequence (crates/tulya-core/src/persistent_sequence/avl.rs).
pub mod Arena
pub mod Action
pub mod Edit
pub mod Splice
pub mod Read
pub mod Tree
pub mod Height
pub mod Held
pub mod Runs
pub mod Alloc
pub mod Pieces
pub mod RotateLeft
pub mod RotateRight
pub mod Rebalance
pub mod Concat
pub mod Sides
pub mod Cuts
pub mod Split
pub mod Levels
pub mod Insert
pub mod SpliceRoot
pub mod SpliceChecks
pub mod SpliceLaws
pub mod Appends
pub mod Rollback
pub mod Visit
pub mod ReadLoop
pub mod ReadLaws
pub mod History
pub mod AppendLaws
pub mod VerifyEnds
