-- ===== src/Apply/Delete/Mask.antt =====
-- The mask of the checkpoints that are deleted: `prepare_delete_checkpoint_subtree` of apply_v2.rs up
-- to its last call. A byte of the mask is 1 for a deleted checkpoint and 0 for another.
use tulya_checkpoint_store.Prelude.{
  ℕ, suc, List, [], ◌∷◌, Option, none, some, leb, ◌==◌, if◌then◌else◌, length, get_elem?, set, drop,
  replicate, Result, ok, err, ◌>>=◌, ◌>>◌, reject, ok_or, saturating_add,
}
use tulya_checkpoint_store.Format.Codec.{same_bytes}
use tulya_checkpoint_store.Publication.Records.{CheckpointRecord}
use tulya_checkpoint_store.Apply.Maps.{lookup, contains}
use tulya_checkpoint_store.Apply.State.{ApplyError, invalid, CheckpointKey, same_key}

-- The position of the checkpoint to delete.
unfoldable pub find_target : Option ℕ → CheckpointKey → List CheckpointKey → Result ApplyError ℕ
find_target (some index) key deleted = ok index
find_target none key deleted =
    if contains same_key key deleted
    then err (invalid "v2 checkpoint identity is already deleted")
    else err (invalid "v2 checkpoint identity to delete is absent")

-- `*mask.get_mut(index).ok_or(e)? = 1`
abbrev pub mark : List ℕ → ℕ → ApplyError → Result ApplyError (List ℕ)
mark mask index error = do slot ← ok_or (get_elem? mask index) error; ok (set mask index 1)

-- The body of the loop behind its test of the thread.
unfoldable pub mark_child :
    List (CheckpointKey × ℕ) → List ℕ → ℕ → List ℕ → Option (List ℕ) → Result ApplyError (List ℕ)
mark_child positions mask index thread_id none = ok mask
mark_child positions mask index thread_id (some parent) = do
  parent_index ←
      ok_or (lookup same_key (thread_id, parent) positions)
        (invalid "v2 live checkpoint parent is absent from the index")
  reject (leb index parent_index) (invalid "v2 live checkpoint parent is not topologically prior")
  slot ←
      ok_or (get_elem? mask parent_index)
        (invalid "v2 deletion parent is outside the deletion mask")
  if slot == 0
      then ok mask
      else mark mask index (invalid "v2 deletion checkpoint is outside the deletion mask")

-- The loop over the checkpoints behind the target, from an index on.
unfoldable pub mark_from :
    List (CheckpointKey × ℕ)
    → List ℕ
    → List ℕ
    → ℕ
    → List CheckpointRecord
    → Result ApplyError (List ℕ)
mark_from positions thread_id mask index [] = ok mask
mark_from positions thread_id mask index (checkpoint ∷ checkpoints) = do
  marked ←
      if same_bytes checkpoint.thread_id thread_id
      then mark_child positions mask index checkpoint.thread_id checkpoint.parent_checkpoint_id
      else ok mask
  mark_from positions thread_id marked (suc index) checkpoints

-- The mask of the target and its descendants.
unfoldable pub delete_mask :
    List (CheckpointKey × ℕ) → List ℕ → ℕ → List CheckpointRecord → Result ApplyError (List ℕ)
delete_mask positions thread_id target_index checkpoints = do
  marked ←
      mark (replicate (length checkpoints) 0) target_index
        (invalid "v2 deletion target is outside the checkpoint table")
  let start = saturating_add target_index 1
  mark_from positions thread_id marked start (drop start checkpoints)
