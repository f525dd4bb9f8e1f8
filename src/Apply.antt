-- ===== src/Apply.antt =====
-- The committed state of apply_v2.rs: its maps, the validation of a commit against it, applying a
-- commit, retiring a request, and the invariant that these keep.
pub mod Maps
pub mod State
pub mod Requests
pub mod Validate
pub mod Commits
pub mod Outcomes
pub mod Replays
pub mod Conditions
pub mod Invariant
pub mod Consistent
pub mod Reachable
pub mod Delete
