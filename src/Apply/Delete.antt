-- ===== src/Apply/Delete.antt =====
-- The deletion of a checkpoint and its descendants of apply_v2.rs: the validation of the state, the
-- mask of what is deleted, the ledgers that are left, and what they hold.
pub mod Source
pub mod Positions
pub mod Mask
pub mod Descent
pub mod Decisions
pub mod Subtree
pub mod Ordinals
pub mod Ledgers
pub mod Distribution
pub mod Retention
pub mod Remapping
pub mod Outcome
pub mod Preservation
pub mod Effect
pub mod Replies
pub mod MaskTotality
pub mod Totality
pub mod Success
