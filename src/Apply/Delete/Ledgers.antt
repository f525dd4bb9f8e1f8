-- ===== src/Apply/Delete/Ledgers.antt =====
-- `prepare_delete_ledgers`, `prepare_delete_checkpoint_subtree` and
-- `apply_prepared_delete_checkpoint_subtree` of apply_v2.rs.
use tulya_checkpoint_store.Prelude.{
  ℕ, suc, ◌+◌, ◌-◌, List, [], ◌∷◌, ◌++◌, Option, none, some, Bool, ltb, ◌==◌, if◌then◌else◌, length,
  get_elem?, set, replicate, Result, ok, ◌>>=◌, ◌>>◌, reject, ok_or, checked_add, try_from, u64_max,
}
use tulya_checkpoint_store.Format.Records.{Sha256}
use tulya_checkpoint_store.Format.Codec.{same_bytes}
use tulya_checkpoint_store.Publication.Records.{CheckpointRecord}
use tulya_checkpoint_store.Apply.Maps.{lookup, insert, contains}
use tulya_checkpoint_store.Apply.State.{
  ApplyError, invalid, overflow, RequestRecord, CheckpointKey, same_key, CommittedState,
}
use tulya_checkpoint_store.Apply.Validate.{key_of}
use tulya_checkpoint_store.Apply.Delete.Source.{
  validate_checkpoint_identifier, validate_delete_source_state,
}
use tulya_checkpoint_store.Apply.Delete.Mask.{find_target, delete_mask}

-- `V2PreparedSubtreeDelete`
pub record PreparedSubtreeDelete : Type 0 where
  pub checkpoints : List CheckpointRecord
  pub checkpoint_ordinals : List (CheckpointKey × ℕ)
  pub request_records : List (List ℕ × RequestRecord)
  pub retired_requests : List (List ℕ × List ℕ)
  pub deleted_checkpoints : List CheckpointKey
  pub clear_sequence_geometry : Bool
  pub deleted_checkpoint_count : ℕ

-- The variables of the loop over the checkpoints.
pub record Retained : Type 0 where
  pub checkpoints : List CheckpointRecord
  pub checkpoint_ordinals : List (CheckpointKey × ℕ)
  pub new_ordinals : List (Option ℕ)
  pub deleted_checkpoints : List CheckpointKey
  pub next_ordinal : ℕ

-- `delete_mask.iter().filter(|value| **value != 0).count()`
unfoldable pub count_marked : List ℕ → ℕ
count_marked [] = 0
count_marked (slot ∷ mask) = (if slot == 0 then 0 else 1) + count_marked mask

-- `set.insert(key)`
abbrev pub insert_key : CheckpointKey → List CheckpointKey → List CheckpointKey
insert_key key keys = if contains same_key key keys then keys else key ∷ keys

-- The branch of the loop over the checkpoints for one that is deleted.
unfoldable pub drop_checkpoint : CheckpointRecord → Retained → Retained
drop_checkpoint checkpoint kept = record kept {
  deleted_checkpoints = insert_key (key_of checkpoint) kept.deleted_checkpoints;
}

-- The branch for one that is retained, with the ordinal behind its own.
unfoldable pub with_checkpoint : ℕ → CheckpointRecord → ℕ → Retained → Retained
with_checkpoint index checkpoint next kept = record {
  checkpoints = kept.checkpoints ++ (checkpoint ∷ []);
  checkpoint_ordinals =
      insert same_key (key_of checkpoint) kept.next_ordinal kept.checkpoint_ordinals;
  new_ordinals = set kept.new_ordinals index (some kept.next_ordinal);
  deleted_checkpoints = kept.deleted_checkpoints;
  next_ordinal = next;
}

unfoldable pub keep_checkpoint : ℕ → CheckpointRecord → Retained → Result ApplyError Retained
keep_checkpoint index checkpoint kept = do
  next ←
      checked_add u64_max kept.next_ordinal 1
        (overflow "v2 retained checkpoint ordinal exceeds u64")
  ok (with_checkpoint index checkpoint next kept)

-- The loop over the checkpoints, from an index on.
unfoldable pub retain_from :
    List ℕ → ℕ → List CheckpointRecord → Retained → Result ApplyError Retained
retain_from mask index [] kept = ok kept
retain_from mask index (checkpoint ∷ checkpoints) kept = do
  slot ← ok_or (get_elem? mask index) (invalid "v2 checkpoint is outside the deletion mask")
  next ←
      if slot == 0
      then keep_checkpoint index checkpoint kept
      else ok (drop_checkpoint checkpoint kept)
  retain_from mask (suc index) checkpoints next

-- The byte of the mask for the checkpoint of a request.
unfoldable pub request_slot : List ℕ → RequestRecord → Result ApplyError ℕ
request_slot mask found = do
  old_index ←
      try_from u64_max found.checkpoint_ordinal
        (overflow "v2 request checkpoint ordinal exceeds usize")
  ok_or (get_elem? mask old_index)
      (invalid "v2 active request checkpoint ordinal is outside the deletion mask")

-- The first loop over the active requests, which counts those that are to be retired.
unfoldable pub retire_count : List ℕ → List (List ℕ × RequestRecord) → ℕ → Result ApplyError ℕ
retire_count mask [] count = ok count
retire_count mask (entry ∷ entries) count = do
  slot ← request_slot mask entry.1
  next ←
      if slot == 0
      then ok count
      else checked_add u64_max count 1 (overflow "v2 retired request count exceeds usize")
  retire_count mask entries next

-- The active and the retired requests.
pub record Requests : Type 0 where
  pub request_records : List (List ℕ × RequestRecord)
  pub retired_requests : List (List ℕ × List ℕ)

-- `new_ordinals.get(old_index).copied().flatten()`
abbrev pub flatten : Option (Option ℕ) → Option ℕ
flatten none = none
flatten (some ordinal) = ordinal

-- The branches of the second loop: a request of a deleted checkpoint, and one of a retained one.
unfoldable pub retire_entry : List ℕ → RequestRecord → Requests → Requests
retire_entry request found requests = record requests {
  retired_requests = insert same_bytes request found.operation_digest requests.retired_requests;
}

unfoldable pub with_request : List ℕ → RequestRecord → ℕ → Requests → Requests
with_request request found new_ordinal requests = record requests {
  request_records =
      insert same_bytes request
        (record { operation_digest = found.operation_digest; checkpoint_ordinal = new_ordinal })
        requests.request_records;
}

unfoldable pub remap_entry :
    List (Option ℕ) → List ℕ → RequestRecord → Requests → Result ApplyError Requests
remap_entry new_ordinals request found requests = do
  new_ordinal ←
      ok_or (flatten (get_elem? new_ordinals found.checkpoint_ordinal))
        (invalid "v2 retained request checkpoint is absent from the prepared ordinal map")
  ok (with_request request found new_ordinal requests)

-- The second loop over the active requests.
unfoldable pub remap_from :
    List ℕ → List (Option ℕ) → List (List ℕ × RequestRecord) → Requests → Result ApplyError Requests
remap_from mask new_ordinals [] requests = ok requests
remap_from mask new_ordinals (entry ∷ entries) requests = do
  slot ← request_slot mask entry.1
  next ←
      if slot == 0
      then remap_entry new_ordinals entry.0 entry.1 requests
      else ok (retire_entry entry.0 entry.1 requests)
  remap_from mask new_ordinals entries next

-- The variables of the loop over the checkpoints before it.
abbrev pub retained_none : CommittedState → Retained
retained_none state = record {
  checkpoints = [];
  checkpoint_ordinals = [];
  new_ordinals = replicate (length state.checkpoints) none;
  deleted_checkpoints = state.deleted_checkpoints;
  next_ordinal = 0;
}

-- The ledgers of the requests before the loop over them.
abbrev pub requests_none : CommittedState → Requests
requests_none state = record { request_records = []; retired_requests = state.retired_requests }

-- `prepare_delete_ledgers`; a map or a set that is copied entry by entry is the one that it was.
unfoldable pub prepare_delete_ledgers :
    CommittedState → List ℕ → Result ApplyError PreparedSubtreeDelete
prepare_delete_ledgers state mask = do
  let deleted_count = count_marked mask
  reject (ltb (length state.checkpoints) deleted_count)
      (invalid "v2 deletion mask exceeds checkpoint table")
  let retained_count = length state.checkpoints - deleted_count
  deleted_checkpoint_count ←
      try_from u64_max deleted_count (overflow "v2 deleted checkpoint count exceeds u64")
  final_deleted_count ←
      checked_add u64_max (length state.deleted_checkpoints) deleted_count
        (overflow "v2 deleted checkpoint ledger length exceeds usize")
  kept ← retain_from mask 0 state.checkpoints (retained_none state)
  retired_count ← retire_count mask state.request_records 0
  reject (ltb (length state.request_records) retired_count)
      (invalid "v2 retired request count exceeds active request ledger")
  final_retired_count ←
      checked_add u64_max (length state.retired_requests) retired_count
        (overflow "v2 retired request ledger length exceeds usize")
  requests ← remap_from mask kept.new_ordinals state.request_records (requests_none state)
  ok (record {
    checkpoints = kept.checkpoints;
    checkpoint_ordinals = kept.checkpoint_ordinals;
    request_records = requests.request_records;
    retired_requests = requests.retired_requests;
    deleted_checkpoints = kept.deleted_checkpoints;
    clear_sequence_geometry = retained_count == 0;
    deleted_checkpoint_count = deleted_checkpoint_count;
  })

-- `prepare_delete_checkpoint_subtree`
unfoldable pub prepare_delete_checkpoint_subtree :
    ⦃sha : Sha256⦄ → CommittedState → List ℕ → List ℕ → Result ApplyError PreparedSubtreeDelete
prepare_delete_checkpoint_subtree state thread_id checkpoint_id = do
  validate_checkpoint_identifier thread_id
  validate_checkpoint_identifier checkpoint_id
  positions ← validate_delete_source_state state
  target_index ←
      find_target (lookup same_key (thread_id, checkpoint_id) positions) (thread_id, checkpoint_id)
        state.deleted_checkpoints
  mask ← delete_mask positions thread_id target_index state.checkpoints
  prepare_delete_ledgers state mask

-- `apply_prepared_delete_checkpoint_subtree`
unfoldable pub apply_prepared_delete_checkpoint_subtree :
    CommittedState → PreparedSubtreeDelete → CommittedState
apply_prepared_delete_checkpoint_subtree state prepared =
    let clear = prepared.clear_sequence_geometry in
    record {
      payload = if clear then [] else state.payload;
      nodes = if clear then [] else state.nodes;
      versions = if clear then [] else state.versions;
      checkpoints = prepared.checkpoints;
      checkpoint_ordinals = prepared.checkpoint_ordinals;
      request_records = prepared.request_records;
      retired_requests = prepared.retired_requests;
      deleted_checkpoints = prepared.deleted_checkpoints;
    }
