-- ===== src/Tests/DeleteRuns.antt =====
-- Runs on the second transaction: its commit is applied, and the deletion of its checkpoint prepared.
use mathlib.Core.Bool.{decide}
use tulya_checkpoint_store.Prelude.{ℕ_discrete, [], ◌∷◌, ◌≡◌, refl, true, some, ok}
use tulya_checkpoint_store.Avl.Arena.{same_node, same_root}
use tulya_checkpoint_store.Tests.Fixtures.{checksum_sha, ascii_text, is_ok, value_or}
use tulya_checkpoint_store.Prelude.{get_elem?, length, ◌+◌}
use tulya_checkpoint_store.Apply.State.{replay}
use tulya_checkpoint_store.Apply.Maps.{lookup}
use tulya_checkpoint_store.Apply.State.{same_key}
use tulya_checkpoint_store.Tests.Samples.{
  child_checkpoint, child_commit, child_request, child_state, committed_state,
}
use tulya_checkpoint_store.Format.Bytes.{to_le_bytes, from_le_bytes}
use tulya_checkpoint_store.Format.Records.{NodeRecord-discrete, RootRecord-discrete}
use tulya_checkpoint_store.Format.Reads.{get_or_err, read_le}
use tulya_checkpoint_store.Format.Build.{leaf_commitment, validate_child_root, from_node, leaf}
use tulya_checkpoint_store.Format.Codec.{
  encode_fields, encode_body, encode_node, encode_root, require_record_len, read_byte, read_array,
  decode_leaf, decode_kind, decode_node, decode_root,
}
use tulya_checkpoint_store.Publication.Records.{
  StateMetadata-discrete, VersionRecord-discrete, CheckpointRecord-discrete, root_bytes,
  optional_root_bytes, add_messages_len, add_result_len, checkpoint_state_metadata,
}
use tulya_checkpoint_store.Publication.Checks.{
  validate_parent_version, validate_identifier, validate_encodable_version_reference,
  validate_version_reference, decode_optional_version, encode_optional_version, decode_identifier,
  require_record_len as publication_checks_require_record_len, read_u32, read_u64,
}
use tulya_checkpoint_store.Publication.Version.{version_bytes, encode_version, decode_version}
use tulya_checkpoint_store.Publication.Checkpoint.{
  validate_fields, checkpoint_encoding_geometry, validate_checkpoint_record, checkpoint_prefix,
  encode_checkpoint, decode_identifiers, decode_lengths, decode_checkpoint,
}
use tulya_checkpoint_store.Wal.Records.{WalGeometry-discrete}
use tulya_checkpoint_store.Wal.Geometry.{
  validate_base_geometry, advance_geometry, next_geometry_from_counts, version_id_for_local,
  checked_total_len, transaction_digest, read_u32 as wal_geometry_read_u32,
  read_u64 as wal_geometry_read_u64,
}
use tulya_checkpoint_store.Wal.Nodes.{
  local_node, validate_node_codec, validate_leaf, validate_node, node_ranges, insert_range,
  sort_ranges, own_ranges, validate_nodes,
}
use tulya_checkpoint_store.Wal.Validate.{
  validate_version_root, validate_version, validate_versions_from, validate_versions,
  local_version_root, optional_version_root, validate_state, validate_checkpoint,
  validate_transaction,
}
use tulya_checkpoint_store.Wal.Codec.{
  wal_header, encode_nodes, encode_versions, seal, encoded_geometry, encode_transaction,
  decode_nodes, decode_versions, decode_sections, decode_body, decode_transaction,
}
use tulya_checkpoint_store.Commit.Records.{
  validate_request_id, len_prefixed, checkpoint_operation_digest, digest_of_commit,
  read_u32 as commit_records_read_u32, read_u64 as commit_records_read_u64,
}
use tulya_checkpoint_store.Commit.Codec.{
  commit_header, request_operation_digest, seal_commit, encode_commit, decode_inner_wal_base,
  check_operation_digest, decode_commit_sections, decode_commit_digests, decode_commit,
}
use tulya_checkpoint_store.Apply.State.{
  validate_request_id as apply_state_validate_request_id, geometry,
}
use tulya_checkpoint_store.Apply.Requests.{classify_found, classify_request}
use tulya_checkpoint_store.Apply.Validate.{
  resolve_node, resolve_version, validate_nodes as apply_validate_validate_nodes, resolve_parent,
  validate_versions as apply_validate_validate_versions, validate_parent, optional_root,
  validate_checkpoint as apply_validate_validate_checkpoint, validate_against_committed_state,
}
use tulya_checkpoint_store.Apply.Commits.{
  request_status, record_request, commit_state, apply_new, apply_status, apply_commit,
}
use tulya_checkpoint_store.Apply.Commits.{commit_state, record_request}
use tulya_checkpoint_store.Apply.Delete.Source.{
  validate_checkpoint_identifier, validate_parent_identifier, validate_prior_parent, position_of,
  positions_from, validate_ordinals, validate_deleted, validate_active, validate_retired,
  validate_delete_source_state,
}
use tulya_checkpoint_store.Apply.Delete.Mask.{find_target, mark_child, mark_from, delete_mask}
use tulya_checkpoint_store.Apply.Delete.Ledgers.{
  count_marked, drop_checkpoint, with_checkpoint, keep_checkpoint, retain_from, request_slot,
  retire_count, retire_entry, with_request, remap_entry, remap_from, prepare_delete_ledgers,
  prepare_delete_checkpoint_subtree, apply_prepared_delete_checkpoint_subtree,
}

-- The commit is applied, the state passes the validation, the deletion is prepared, and where the
-- checkpoint and its request stand.
pub child_runs :
    (is_ok (apply_commit committed_state child_commit) ≡ true)
    × (is_ok (validate_delete_source_state child_state) ≡ true)
    × (is_ok (prepare_delete_checkpoint_subtree child_state (b't' ∷ []) (b'c' ∷ b'2' ∷ [])) ≡ true)
    × (lookup same_key (b't' ∷ [], b'c' ∷ b'2' ∷ []) child_state.checkpoint_ordinals ≡ some 1)
    × (get_elem? child_state.checkpoints 1 ≡ some child_checkpoint)
    × (classify_request child_state child_request
          (value_or [] (checkpoint_operation_digest child_checkpoint))
        ≡ ok (replay 1))
    × (length child_state.deleted_checkpoints + length child_state.checkpoints ≡ 2)
    × (length child_state.retired_requests + length child_state.request_records ≡ 2)
unfolding to_le_bytes from_le_bytes NodeRecord-discrete RootRecord-discrete get_or_err read_le
    leaf_commitment validate_child_root from_node leaf encode_fields encode_body encode_node
    encode_root require_record_len read_byte read_array decode_leaf decode_kind decode_node
    decode_root StateMetadata-discrete VersionRecord-discrete CheckpointRecord-discrete root_bytes
    optional_root_bytes add_messages_len add_result_len checkpoint_state_metadata
    validate_parent_version validate_identifier validate_encodable_version_reference
    validate_version_reference decode_optional_version encode_optional_version decode_identifier
    publication_checks_require_record_len read_u32 read_u64 version_bytes encode_version
    decode_version validate_fields checkpoint_encoding_geometry validate_checkpoint_record
    checkpoint_prefix encode_checkpoint decode_identifiers decode_lengths decode_checkpoint
    WalGeometry-discrete validate_base_geometry advance_geometry next_geometry_from_counts
    version_id_for_local checked_total_len transaction_digest wal_geometry_read_u32
    wal_geometry_read_u64 local_node validate_node_codec validate_leaf validate_node node_ranges
    insert_range sort_ranges own_ranges validate_nodes validate_version_root validate_version
    validate_versions_from validate_versions local_version_root optional_version_root validate_state
    validate_checkpoint validate_transaction wal_header encode_nodes encode_versions seal
    encoded_geometry encode_transaction decode_nodes decode_versions decode_sections decode_body
    decode_transaction validate_request_id len_prefixed checkpoint_operation_digest digest_of_commit
    commit_records_read_u32 commit_records_read_u64 commit_header request_operation_digest
    seal_commit encode_commit decode_inner_wal_base check_operation_digest decode_commit_sections
    decode_commit_digests decode_commit apply_state_validate_request_id geometry classify_found
    classify_request resolve_node resolve_version apply_validate_validate_nodes resolve_parent
    apply_validate_validate_versions validate_parent optional_root
    apply_validate_validate_checkpoint validate_against_committed_state request_status apply_new
    apply_status apply_commit same_node same_root decide ℕ_discrete commit_state record_request
    validate_checkpoint_identifier validate_parent_identifier validate_prior_parent position_of
    positions_from validate_ordinals validate_deleted validate_active validate_retired
    validate_delete_source_state find_target mark_child mark_from delete_mask count_marked
    drop_checkpoint with_checkpoint keep_checkpoint retain_from request_slot retire_count
    retire_entry with_request remap_entry remap_from prepare_delete_ledgers
    prepare_delete_checkpoint_subtree apply_prepared_delete_checkpoint_subtree
child_runs = (refl, refl, refl, refl, refl, refl, refl, refl)
