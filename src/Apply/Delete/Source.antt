-- ===== src/Apply/Delete/Source.antt =====
-- `validate_delete_source_state` of apply_v2.rs. The iteration over a map or a set is the list's.
use tulya_checkpoint_store.Prelude.{
  ℕ, suc, List, [], ◌∷◌, Option, none, some, not, ◌||◌, ltb, leb, ◌==◌, is_empty, length, get_elem?,
  Result, ok, ◌>>=◌, ◌>>◌, reject, ok_or, map_err, try_from, u64_max,
}
use tulya_checkpoint_store.Format.Records.{Sha256}
use tulya_checkpoint_store.Format.Codec.{same_bytes}
use tulya_checkpoint_store.Publication.Records.{CheckpointRecord}
use tulya_checkpoint_store.Commit.Records.{checkpoint_operation_digest}
use tulya_checkpoint_store.Apply.Maps.{lookup, insert, contains, is_some}
use tulya_checkpoint_store.Apply.State.{
  ApplyError, commit_error, invalid, overflow, RequestRecord, CheckpointKey, same_key,
  CommittedState, validate_request_id,
}
use tulya_checkpoint_store.Apply.Validate.{key_of}

abbrev pub max_identifier_bytes : ℕ
max_identifier_bytes = 4096

-- `validate_checkpoint_identifier`
unfoldable pub validate_checkpoint_identifier : List ℕ → Result ApplyError (Unit {0})
validate_checkpoint_identifier identifier =
    reject (is_empty identifier || ltb max_identifier_bytes (length identifier))
      (invalid "v2 checkpoint identifier is empty or exceeds the byte limit")

-- The identifier of the parent, when there is one.
unfoldable pub validate_parent_identifier : Option (List ℕ) → Result ApplyError (Unit {0})
validate_parent_identifier none = ok tt
validate_parent_identifier (some parent) = validate_checkpoint_identifier parent

-- The parent stands at a position before the one given.
unfoldable pub validate_prior_parent :
    List (CheckpointKey × ℕ) → ℕ → List ℕ → Option (List ℕ) → Result ApplyError (Unit {0})
validate_prior_parent positions index thread_id none = ok tt
validate_prior_parent positions index thread_id (some parent) = do
  parent_index ←
      ok_or (lookup same_key (thread_id, parent) positions)
        (invalid "v2 live checkpoint parent is not topologically prior in the same thread")
  reject (leb index parent_index) (invalid "v2 live checkpoint parent is not topologically prior")

-- The body of the loop over the checkpoints, which returns the positions with this one.
unfoldable pub position_of :
    CommittedState
    → List (CheckpointKey × ℕ)
    → ℕ
    → CheckpointRecord
    → Result ApplyError (List (CheckpointKey × ℕ))
position_of state positions index checkpoint = do
  validate_checkpoint_identifier checkpoint.thread_id
  validate_checkpoint_identifier checkpoint.checkpoint_id
  validate_parent_identifier checkpoint.parent_checkpoint_id
  reject (contains same_key (key_of checkpoint) state.deleted_checkpoints)
      (invalid "v2 checkpoint identity is both live and deleted")
  reject (is_some (lookup same_key (key_of checkpoint) positions))
      (invalid "v2 checkpoint table contains duplicate identity")
  let inserted = insert same_key (key_of checkpoint) index positions
  validate_prior_parent inserted index checkpoint.thread_id checkpoint.parent_checkpoint_id
  ok inserted

-- The loop over the checkpoints, from an index on.
unfoldable pub positions_from :
    CommittedState
    → List (CheckpointKey × ℕ)
    → ℕ
    → List CheckpointRecord
    → Result ApplyError (List (CheckpointKey × ℕ))
positions_from state positions index [] = ok positions
positions_from state positions index (checkpoint ∷ checkpoints) = do
  inserted ← position_of state positions index checkpoint
  positions_from state inserted (suc index) checkpoints

-- The loop over the index.
unfoldable pub validate_ordinals :
    List (CheckpointKey × ℕ) → List (CheckpointKey × ℕ) → Result ApplyError (Unit {0})
validate_ordinals positions [] = ok tt
validate_ordinals positions (entry ∷ entries) = do
  index ←
      ok_or (lookup same_key entry.0 positions)
        (invalid "v2 checkpoint index contains an identity absent from the checkpoint table")
  expected_ordinal ← try_from u64_max index (overflow "v2 checkpoint ordinal exceeds u64")
  reject (not (entry.1 == expected_ordinal))
      (invalid "v2 checkpoint index disagrees with checkpoint table")
  validate_ordinals positions entries

-- The loop over the deleted identities.
unfoldable pub validate_deleted : List CheckpointKey → Result ApplyError (Unit {0})
validate_deleted [] = ok tt
validate_deleted (key ∷ keys) = do
  validate_checkpoint_identifier key.0
  validate_checkpoint_identifier key.1
  validate_deleted keys

module _ ⦃sha : Sha256⦄ where
  -- The loop over the active requests.
  unfoldable pub validate_active :
      CommittedState → List (List ℕ × RequestRecord) → Result ApplyError (Unit {0})
  validate_active state [] = ok tt
  validate_active state (entry ∷ entries) = do
    validate_request_id entry.0
    reject (is_some (lookup same_bytes entry.0 state.retired_requests))
        (invalid "v2 request identity is both active and retired")
    checkpoint_index ←
        try_from u64_max entry.1.checkpoint_ordinal
          (overflow "v2 request checkpoint ordinal exceeds usize")
    checkpoint ←
        ok_or (get_elem? state.checkpoints checkpoint_index)
          (invalid "v2 active request checkpoint ordinal is outside the checkpoint table")
    digest ← map_err commit_error (checkpoint_operation_digest checkpoint)
    reject (not (same_bytes digest entry.1.operation_digest))
        (invalid "v2 active request digest disagrees with its checkpoint")
    validate_active state entries

-- The loop over the retired requests.
unfoldable pub validate_retired : List (List ℕ × List ℕ) → Result ApplyError (Unit {0})
validate_retired [] = ok tt
validate_retired (entry ∷ entries) = do validate_request_id entry.0; validate_retired entries

-- `validate_delete_source_state`
unfoldable pub validate_delete_source_state :
    ⦃sha : Sha256⦄ → CommittedState → Result ApplyError (List (CheckpointKey × ℕ))
validate_delete_source_state state = do
  reject (not (length state.checkpoint_ordinals == length state.checkpoints))
      (invalid "v2 checkpoint index cardinality disagrees with checkpoint table")
  positions ← positions_from state [] 0 state.checkpoints
  validate_ordinals positions state.checkpoint_ordinals
  validate_deleted state.deleted_checkpoints
  validate_active state state.request_records
  validate_retired state.retired_requests
  ok positions
