-- ===== src/Lib.antt =====
-- Verification of the tulya checkpoint store.
--
-- The store keeps versions of byte sequences as roots of persistent AVL trees over one append-only
-- arena, and makes each change durable by one record in a hot write-ahead log. A checkpoint names
-- versions; a transaction carries the new payload, nodes and versions of one checkpoint; a commit
-- wraps a transaction with the identity of its request; a frame closes a commit in the log with a
-- footer; the recovery scans the frames and applies their commits to the committed state. The
-- development models these parts, the tree sequence, and the write of a record to the log.
--
-- Prelude: Boolean tests, lists over the native numbers, ranges of lists, fallible results.
-- Format (crates/tulya-core/src/persistent_sequence/format_v2.rs): `V2NodeRecord`, `V2RootRecord`,
--   their checked constructors `leaf`, `branch`, `from_node`, the commitments, and the codec
--   (Codec: `encode_v2_node`, `decode_v2_node`, `encode_v2_root`, `decode_v2_root`). SHA-256 is the
--   instance argument `Sha256`; of it only the length of a digest is used.
-- Avl (crates/tulya-core/src/persistent_sequence/avl.rs): Arena is the in-memory `ArenaStore`;
--   Action is the state that the `_on` functions thread (the arena and the count of inspected
--   nodes) with their `?`; Edit has `allocate_leaf_on`, `allocate_branch_on`, `rebalance_on`,
--   `concat_on`, `split_on`; Splice has `splice_on` and `append_on`; Read has
--   `read_range_counted_on` and `verify_root_counted_on`. The other modules hold the proofs: Tree is
--   the abstract view, a tree of leaves with their bytes; `IsHeld` says that it is balanced and
--   that the arena holds its nodes; `Runs` that an action succeeds with a postcondition.
-- Publication (crates/tulya-core/src/persistent_sequence/publication_v2.rs): `V2VersionRecord`,
--   `V2CheckpointRecord`, `V2StateMetadata`, their checks and codecs (Version, Checkpoint). A `String`
--   is the list of its bytes; that bytes are UTF-8 is the instance argument `Utf8`.
-- Wal (crates/tulya-core/src/persistent_sequence/transaction_v2.rs): Geometry has the watermarks,
--   Nodes and Validate `validate_transaction`, Codec `encode_v2_wal_transaction` and
--   `decode_v2_wal_transaction`; Bodies and Seal hold the lemmas on the tables and on the header.
-- Commit (crates/tulya-core/src/persistent_sequence/commit_v2.rs): Records has the digest of the
--   operation, Codec `encode_v2_commit` and `decode_v2_commit`; Fields and Contents say what a commit
--   that decodes holds.
-- HotWal (src/hot_wal_commit.rs, src/error_classification.rs): Errors, Classify and Contexts
--   are the errors, their classes and what they retain; Commit is `HotWalCommitter::commit` over any
--   `HotWalCommitIo`, whose documented behaviour is the records `IoLaws` and `DurableLaws`; Session
--   is a sequence of commits of one committer, Success what a file that accepts its writes makes of
--   it; Authority is the choice of a recovery (src/format_authority.rs); Frame and FrameEncode are
--   the probe and the encoder of a framed commit
--   (crates/tulya-core/src/persistent_sequence/hot_frame_v2.rs), and PaddedFooter, TornWrites and
--   TornFrames what the probe makes of a frame that was written in part.
-- Apply (crates/tulya-core/src/persistent_sequence/apply_v2.rs): State is `V2CommittedState`, its hash
--   maps as association lists (Maps); Requests has `classify_request` and `retire_request`, Validate
--   the checks of a commit against the state, Commits `apply_v2_commit`, which returns the state that
--   the source mutates; its errors come before the first write. Reachable is the step relation.
--   Delete is `prepare_delete_checkpoint_subtree` and `apply_prepared_delete_checkpoint_subtree`:
--   Source the validation of the state, Mask the mask of the target and its descendants, Ledgers the
--   ledgers that are left; the other modules hold the proofs, with `InSubtree` (Descent) as the
--   independent description of what is deleted.
-- Recovery (crates/tulya-core/src/persistent_sequence/recovery_v2.rs): Scan is `recover_v2_hot_wal`,
--   Turns the relation of a log to the states before and behind its commits, Logs the loop on a log,
--   Crash a log whose last write was cut off.
-- Tests: runs on small inputs, and the theorems at concrete inputs.
--
-- Numbers are natural numbers with the checks of the source written out (`checked_add`,
-- `try_from`, `saturating_add`); `usize` is taken to be 64 bits wide. Recursion that is not
-- structural is on fuel, and `out_of_fuel` is a fault of its own that the source does not have: a
-- concatenation has the sum of the heights and one more, a split the height and one more, a round
-- of pairing for each leaf, a read two visits for each byte of the root, a verification the
-- height and one more, the write loop a round for each byte, the recovery a turn for each byte
-- and one more. The theorems on success and on the end of verification show that this is enough
-- where they apply: a level of a tree costs a round, and a write that goes on takes a byte at
-- least. A read or an edit of a forged root may run out of fuel where the source would go on or
-- report an error.
--
-- Not modelled: failed reservations of memory, timings, the texts of errors for display, the
-- file-backed arena, images and compaction, the restored backend
-- and the sealed snapshots of Format v2, the v1 formats, and the store's files, locks and threads.
pub mod Prelude
pub mod Format
pub mod Avl
pub mod Publication
pub mod Wal
pub mod Commit
pub mod HotWal
pub mod Apply
pub mod Recovery
pub mod Tests
