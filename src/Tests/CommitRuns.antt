-- ===== src/Tests/CommitRuns.antt =====
-- Runs on the first transaction: its parts, its commit, its frame and the state with it in it are
-- made without an error.
use mathlib.Core.Bool.{decide}
use tulya_checkpoint_store.Prelude.{
  ℕ_discrete, ◌≡◌, refl, true, some, length, ◌++◌, ok, false, get_elem?, take,
}
use tulya_checkpoint_store.Avl.Arena.{same_node, same_root}
use tulya_checkpoint_store.HotWal.TornFrames.{cut_frame}
use tulya_checkpoint_store.Tests.Fixtures.{checksum_sha, ascii_text, is_ok}
use tulya_checkpoint_store.Tests.Samples.{
  sample_base, sample_transaction, sample_checkpoint, sample_version, sample_request, sample_commit,
  sample_frame, sample_decoded, sample_torn, committed_state,
}
use tulya_checkpoint_store.Apply.State.{applied, default_state}
use tulya_checkpoint_store.Format.Bytes.{to_le_bytes, from_le_bytes}
use tulya_checkpoint_store.Format.Records.{NodeRecord-discrete, RootRecord-discrete}
use tulya_checkpoint_store.Format.Reads.{get_or_err, read_le}
use tulya_checkpoint_store.Format.Build.{leaf_commitment, validate_child_root, from_node, leaf}
use tulya_checkpoint_store.Format.Codec.{
  encode_fields, encode_body, encode_node, encode_root, require_record_len, read_byte, read_array,
  decode_leaf, decode_kind, decode_node, decode_root,
}
use tulya_checkpoint_store.Publication.Records.{
  StateMetadata-discrete, VersionRecord-discrete, CheckpointRecord-discrete, root_bytes,
  optional_root_bytes, add_messages_len, add_result_len, checkpoint_state_metadata,
}
use tulya_checkpoint_store.Publication.Checks.{
  validate_parent_version, validate_identifier, validate_encodable_version_reference,
  validate_version_reference, decode_optional_version, encode_optional_version, decode_identifier,
  require_record_len as publication_checks_require_record_len, read_u32, read_u64,
}
use tulya_checkpoint_store.Publication.Version.{version_bytes, encode_version, decode_version}
use tulya_checkpoint_store.Publication.Checkpoint.{
  validate_fields, checkpoint_encoding_geometry, validate_checkpoint_record, checkpoint_prefix,
  encode_checkpoint, decode_identifiers, decode_lengths, decode_checkpoint,
}
use tulya_checkpoint_store.Wal.Records.{WalGeometry-discrete}
use tulya_checkpoint_store.Wal.Geometry.{
  validate_base_geometry, advance_geometry, next_geometry_from_counts, version_id_for_local,
  checked_total_len, transaction_digest, read_u32 as wal_geometry_read_u32,
  read_u64 as wal_geometry_read_u64,
}
use tulya_checkpoint_store.Wal.Nodes.{
  local_node, validate_node_codec, validate_leaf, validate_node, node_ranges, insert_range,
  sort_ranges, own_ranges, validate_nodes,
}
use tulya_checkpoint_store.Wal.Validate.{
  validate_version_root, validate_version, validate_versions_from, validate_versions,
  local_version_root, optional_version_root, validate_state, validate_checkpoint,
  validate_transaction,
}
use tulya_checkpoint_store.Wal.Codec.{
  wal_header, encode_nodes, encode_versions, seal, encoded_geometry, encode_transaction,
  decode_nodes, decode_versions, decode_sections, decode_body, decode_transaction,
}
use tulya_checkpoint_store.Commit.Records.{
  validate_request_id, len_prefixed, checkpoint_operation_digest, digest_of_commit,
  read_u32 as commit_records_read_u32, read_u64 as commit_records_read_u64,
}
use tulya_checkpoint_store.Commit.Codec.{
  commit_header, request_operation_digest, seal_commit, encode_commit, decode_inner_wal_base,
  check_operation_digest, decode_commit_sections, decode_commit_digests, decode_commit,
}
use tulya_checkpoint_store.HotWal.Frame.{
  torn, read_u32 as hotwal_frame_read_u32, probe_footer, probe_hot_frame,
}
use tulya_checkpoint_store.HotWal.FrameEncode.{encode_hot_frame}
use tulya_checkpoint_store.Recovery.Scan.{starts_with_zero_reserve}
use tulya_checkpoint_store.Apply.State.{
  validate_request_id as apply_state_validate_request_id, geometry,
}
use tulya_checkpoint_store.Apply.Requests.{
  classify_found, classify_request, active_digest, retire_request,
}
use tulya_checkpoint_store.Apply.Validate.{
  resolve_node, resolve_version, validate_nodes as apply_validate_validate_nodes, resolve_parent,
  validate_versions as apply_validate_validate_versions, validate_parent, optional_root,
  validate_checkpoint as apply_validate_validate_checkpoint, validate_against_committed_state,
}
use tulya_checkpoint_store.Apply.Commits.{
  request_status, record_request, commit_state, apply_new, apply_status, apply_commit,
}

pub version_encodes : is_ok (encode_version sample_version) ≡ true
unfolding validate_parent_version encode_version
version_encodes = refl

pub checkpoint_encodes : is_ok (encode_checkpoint sample_checkpoint) ≡ true
unfolding to_le_bytes add_messages_len add_result_len checkpoint_state_metadata validate_identifier
    validate_encodable_version_reference validate_fields checkpoint_encoding_geometry
    checkpoint_prefix encode_checkpoint
checkpoint_encodes = refl

pub transaction_encodes : is_ok (encode_transaction sample_base sample_transaction) ≡ true
unfolding to_le_bytes from_le_bytes NodeRecord-discrete RootRecord-discrete get_or_err read_le
    leaf_commitment validate_child_root from_node leaf encode_fields encode_body encode_node
    encode_root require_record_len read_byte read_array decode_leaf decode_kind decode_node
    decode_root StateMetadata-discrete VersionRecord-discrete CheckpointRecord-discrete root_bytes
    optional_root_bytes add_messages_len add_result_len checkpoint_state_metadata
    validate_parent_version validate_identifier validate_encodable_version_reference
    validate_version_reference decode_optional_version encode_optional_version decode_identifier
    publication_checks_require_record_len read_u32 read_u64 version_bytes encode_version
    decode_version validate_fields checkpoint_encoding_geometry checkpoint_prefix encode_checkpoint
    decode_identifiers decode_lengths decode_checkpoint WalGeometry-discrete validate_base_geometry
    advance_geometry next_geometry_from_counts version_id_for_local checked_total_len
    wal_geometry_read_u64 local_node validate_node_codec validate_leaf validate_node node_ranges
    insert_range sort_ranges own_ranges validate_nodes validate_version_root validate_version
    validate_versions_from validate_versions local_version_root optional_version_root validate_state
    validate_checkpoint validate_transaction wal_header encode_nodes encode_versions
    encoded_geometry encode_transaction same_node same_root decide ℕ_discrete
transaction_encodes = refl

pub commit_encodes :
    is_ok (encode_commit sample_base sample_transaction (some sample_request)) ≡ true
unfolding to_le_bytes from_le_bytes NodeRecord-discrete RootRecord-discrete get_or_err read_le
    leaf_commitment validate_child_root from_node leaf encode_fields encode_body encode_node
    encode_root require_record_len read_byte read_array decode_leaf decode_kind decode_node
    decode_root StateMetadata-discrete VersionRecord-discrete CheckpointRecord-discrete root_bytes
    optional_root_bytes add_messages_len add_result_len checkpoint_state_metadata
    validate_parent_version validate_identifier validate_encodable_version_reference
    validate_version_reference decode_optional_version encode_optional_version decode_identifier
    publication_checks_require_record_len read_u32 read_u64 version_bytes encode_version
    decode_version validate_fields checkpoint_encoding_geometry validate_checkpoint_record
    checkpoint_prefix encode_checkpoint decode_identifiers decode_lengths decode_checkpoint
    WalGeometry-discrete validate_base_geometry advance_geometry next_geometry_from_counts
    version_id_for_local checked_total_len transaction_digest wal_geometry_read_u64 local_node
    validate_node_codec validate_leaf validate_node node_ranges insert_range sort_ranges own_ranges
    validate_nodes validate_version_root validate_version validate_versions_from validate_versions
    local_version_root optional_version_root validate_state validate_checkpoint validate_transaction
    wal_header encode_nodes encode_versions seal encoded_geometry encode_transaction
    validate_request_id len_prefixed checkpoint_operation_digest commit_header
    request_operation_digest encode_commit same_node same_root decide ℕ_discrete
commit_encodes = refl

pub commit_decodes : is_ok (decode_commit sample_commit) ≡ true
unfolding to_le_bytes from_le_bytes NodeRecord-discrete RootRecord-discrete get_or_err read_le
    leaf_commitment validate_child_root from_node leaf encode_fields encode_body encode_node
    encode_root require_record_len read_byte read_array decode_leaf decode_kind decode_node
    decode_root StateMetadata-discrete VersionRecord-discrete CheckpointRecord-discrete root_bytes
    optional_root_bytes add_messages_len add_result_len checkpoint_state_metadata
    validate_parent_version validate_identifier validate_encodable_version_reference
    validate_version_reference decode_optional_version encode_optional_version decode_identifier
    publication_checks_require_record_len read_u32 read_u64 version_bytes encode_version
    decode_version validate_fields checkpoint_encoding_geometry validate_checkpoint_record
    checkpoint_prefix encode_checkpoint decode_identifiers decode_lengths decode_checkpoint
    WalGeometry-discrete validate_base_geometry advance_geometry next_geometry_from_counts
    version_id_for_local checked_total_len transaction_digest wal_geometry_read_u32
    wal_geometry_read_u64 local_node validate_node_codec validate_leaf validate_node node_ranges
    insert_range sort_ranges own_ranges validate_nodes validate_version_root validate_version
    validate_versions_from validate_versions local_version_root optional_version_root validate_state
    validate_checkpoint validate_transaction wal_header encode_nodes encode_versions seal
    encoded_geometry encode_transaction decode_nodes decode_versions decode_sections decode_body
    decode_transaction validate_request_id len_prefixed checkpoint_operation_digest digest_of_commit
    commit_records_read_u32 commit_records_read_u64 commit_header request_operation_digest
    seal_commit encode_commit decode_inner_wal_base check_operation_digest decode_commit_sections
    decode_commit_digests decode_commit same_node same_root decide ℕ_discrete
commit_decodes = refl

pub frame_encodes : is_ok (encode_hot_frame sample_commit) ≡ true
unfolding to_le_bytes from_le_bytes NodeRecord-discrete RootRecord-discrete get_or_err read_le
    leaf_commitment validate_child_root from_node leaf encode_fields encode_body encode_node
    encode_root require_record_len read_byte read_array decode_leaf decode_kind decode_node
    decode_root StateMetadata-discrete VersionRecord-discrete CheckpointRecord-discrete root_bytes
    optional_root_bytes add_messages_len add_result_len checkpoint_state_metadata
    validate_parent_version validate_identifier validate_encodable_version_reference
    validate_version_reference decode_optional_version encode_optional_version decode_identifier
    publication_checks_require_record_len read_u32 read_u64 version_bytes encode_version
    decode_version validate_fields checkpoint_encoding_geometry validate_checkpoint_record
    checkpoint_prefix encode_checkpoint decode_identifiers decode_lengths decode_checkpoint
    WalGeometry-discrete validate_base_geometry advance_geometry next_geometry_from_counts
    version_id_for_local checked_total_len transaction_digest wal_geometry_read_u32
    wal_geometry_read_u64 local_node validate_node_codec validate_leaf validate_node node_ranges
    insert_range sort_ranges own_ranges validate_nodes validate_version_root validate_version
    validate_versions_from validate_versions local_version_root optional_version_root validate_state
    validate_checkpoint validate_transaction wal_header encode_nodes encode_versions seal
    encoded_geometry encode_transaction decode_nodes decode_versions decode_sections decode_body
    decode_transaction validate_request_id len_prefixed checkpoint_operation_digest digest_of_commit
    commit_records_read_u32 commit_records_read_u64 commit_header request_operation_digest
    seal_commit encode_commit decode_inner_wal_base check_operation_digest decode_commit_sections
    decode_commit_digests decode_commit encode_hot_frame same_node same_root decide ℕ_discrete
frame_encodes = refl

pub commit_applies : is_ok (apply_commit default_state sample_commit) ≡ true
unfolding to_le_bytes from_le_bytes NodeRecord-discrete RootRecord-discrete get_or_err read_le
    leaf_commitment validate_child_root from_node leaf encode_fields encode_body encode_node
    encode_root require_record_len read_byte read_array decode_leaf decode_kind decode_node
    decode_root StateMetadata-discrete VersionRecord-discrete CheckpointRecord-discrete root_bytes
    optional_root_bytes add_messages_len add_result_len checkpoint_state_metadata
    validate_parent_version validate_identifier validate_encodable_version_reference
    validate_version_reference decode_optional_version encode_optional_version decode_identifier
    publication_checks_require_record_len read_u32 read_u64 version_bytes encode_version
    decode_version validate_fields checkpoint_encoding_geometry validate_checkpoint_record
    checkpoint_prefix encode_checkpoint decode_identifiers decode_lengths decode_checkpoint
    WalGeometry-discrete validate_base_geometry advance_geometry next_geometry_from_counts
    version_id_for_local checked_total_len transaction_digest wal_geometry_read_u32
    wal_geometry_read_u64 local_node validate_node_codec validate_leaf validate_node node_ranges
    insert_range sort_ranges own_ranges validate_nodes validate_version_root validate_version
    validate_versions_from validate_versions local_version_root optional_version_root validate_state
    validate_checkpoint validate_transaction wal_header encode_nodes encode_versions seal
    encoded_geometry encode_transaction decode_nodes decode_versions decode_sections decode_body
    decode_transaction validate_request_id len_prefixed checkpoint_operation_digest digest_of_commit
    commit_records_read_u32 commit_records_read_u64 commit_header request_operation_digest
    seal_commit encode_commit decode_inner_wal_base check_operation_digest decode_commit_sections
    decode_commit_digests decode_commit apply_state_validate_request_id geometry classify_found
    classify_request resolve_node resolve_version apply_validate_validate_nodes resolve_parent
    apply_validate_validate_versions validate_parent optional_root
    apply_validate_validate_checkpoint validate_against_committed_state request_status apply_new
    apply_status apply_commit same_node same_root decide ℕ_discrete
commit_applies = refl

pub request_retires : is_ok (retire_request committed_state sample_request) ≡ true
unfolding to_le_bytes from_le_bytes NodeRecord-discrete RootRecord-discrete get_or_err read_le
    leaf_commitment validate_child_root from_node leaf encode_fields encode_body encode_node
    encode_root require_record_len read_byte read_array decode_leaf decode_kind decode_node
    decode_root StateMetadata-discrete VersionRecord-discrete CheckpointRecord-discrete root_bytes
    optional_root_bytes add_messages_len add_result_len checkpoint_state_metadata
    validate_parent_version validate_identifier validate_encodable_version_reference
    validate_version_reference decode_optional_version encode_optional_version decode_identifier
    publication_checks_require_record_len read_u32 read_u64 version_bytes encode_version
    decode_version validate_fields checkpoint_encoding_geometry validate_checkpoint_record
    checkpoint_prefix encode_checkpoint decode_identifiers decode_lengths decode_checkpoint
    WalGeometry-discrete validate_base_geometry advance_geometry next_geometry_from_counts
    version_id_for_local checked_total_len transaction_digest wal_geometry_read_u32
    wal_geometry_read_u64 local_node validate_node_codec validate_leaf validate_node node_ranges
    insert_range sort_ranges own_ranges validate_nodes validate_version_root validate_version
    validate_versions_from validate_versions local_version_root optional_version_root validate_state
    validate_checkpoint validate_transaction wal_header encode_nodes encode_versions seal
    encoded_geometry encode_transaction decode_nodes decode_versions decode_sections decode_body
    decode_transaction validate_request_id len_prefixed checkpoint_operation_digest digest_of_commit
    commit_records_read_u32 commit_records_read_u64 commit_header request_operation_digest
    seal_commit encode_commit decode_inner_wal_base check_operation_digest decode_commit_sections
    decode_commit_digests decode_commit apply_state_validate_request_id geometry classify_found
    classify_request active_digest retire_request resolve_node resolve_version
    apply_validate_validate_nodes resolve_parent apply_validate_validate_versions validate_parent
    optional_root apply_validate_validate_checkpoint validate_against_committed_state request_status
    record_request commit_state apply_new apply_status apply_commit same_node same_root decide
    ℕ_discrete
request_retires = refl

pub decoded_request : sample_decoded.request_id ≡ some sample_request
unfolding to_le_bytes from_le_bytes NodeRecord-discrete RootRecord-discrete get_or_err read_le
    leaf_commitment validate_child_root from_node leaf encode_fields encode_body encode_node
    encode_root require_record_len read_byte read_array decode_leaf decode_kind decode_node
    decode_root StateMetadata-discrete VersionRecord-discrete CheckpointRecord-discrete root_bytes
    optional_root_bytes add_messages_len add_result_len checkpoint_state_metadata
    validate_parent_version validate_identifier validate_encodable_version_reference
    validate_version_reference decode_optional_version encode_optional_version decode_identifier
    publication_checks_require_record_len read_u32 read_u64 version_bytes encode_version
    decode_version validate_fields checkpoint_encoding_geometry validate_checkpoint_record
    checkpoint_prefix encode_checkpoint decode_identifiers decode_lengths decode_checkpoint
    WalGeometry-discrete validate_base_geometry advance_geometry next_geometry_from_counts
    version_id_for_local checked_total_len transaction_digest wal_geometry_read_u32
    wal_geometry_read_u64 local_node validate_node_codec validate_leaf validate_node node_ranges
    insert_range sort_ranges own_ranges validate_nodes validate_version_root validate_version
    validate_versions_from validate_versions local_version_root optional_version_root validate_state
    validate_checkpoint validate_transaction wal_header encode_nodes encode_versions seal
    encoded_geometry encode_transaction decode_nodes decode_versions decode_sections decode_body
    decode_transaction validate_request_id len_prefixed checkpoint_operation_digest digest_of_commit
    commit_records_read_u32 commit_records_read_u64 commit_header request_operation_digest
    seal_commit encode_commit decode_inner_wal_base check_operation_digest decode_commit_sections
    decode_commit_digests decode_commit same_node same_root decide ℕ_discrete
decoded_request = refl

pub commit_outcome : apply_commit default_state sample_commit ≡ ok (applied 0, committed_state)
unfolding to_le_bytes from_le_bytes NodeRecord-discrete RootRecord-discrete get_or_err read_le
    leaf_commitment validate_child_root from_node leaf encode_fields encode_body encode_node
    encode_root require_record_len read_byte read_array decode_leaf decode_kind decode_node
    decode_root StateMetadata-discrete VersionRecord-discrete CheckpointRecord-discrete root_bytes
    optional_root_bytes add_messages_len add_result_len checkpoint_state_metadata
    validate_parent_version validate_identifier validate_encodable_version_reference
    validate_version_reference decode_optional_version encode_optional_version decode_identifier
    publication_checks_require_record_len read_u32 read_u64 version_bytes encode_version
    decode_version validate_fields checkpoint_encoding_geometry validate_checkpoint_record
    checkpoint_prefix encode_checkpoint decode_identifiers decode_lengths decode_checkpoint
    WalGeometry-discrete validate_base_geometry advance_geometry next_geometry_from_counts
    version_id_for_local checked_total_len transaction_digest wal_geometry_read_u32
    wal_geometry_read_u64 local_node validate_node_codec validate_leaf validate_node node_ranges
    insert_range sort_ranges own_ranges validate_nodes validate_version_root validate_version
    validate_versions_from validate_versions local_version_root optional_version_root validate_state
    validate_checkpoint validate_transaction wal_header encode_nodes encode_versions seal
    encoded_geometry encode_transaction decode_nodes decode_versions decode_sections decode_body
    decode_transaction validate_request_id len_prefixed checkpoint_operation_digest digest_of_commit
    commit_records_read_u32 commit_records_read_u64 commit_header request_operation_digest
    seal_commit encode_commit decode_inner_wal_base check_operation_digest decode_commit_sections
    decode_commit_digests decode_commit apply_state_validate_request_id geometry classify_found
    classify_request resolve_node resolve_version apply_validate_validate_nodes resolve_parent
    apply_validate_validate_versions validate_parent optional_root
    apply_validate_validate_checkpoint validate_against_committed_state request_status apply_new
    apply_status apply_commit same_node same_root decide ℕ_discrete
commit_outcome = refl

pub root_commitment : length sample_version.root.commitment ≡ 32
unfolding leaf_commitment
root_commitment = refl

pub state_commitment : length sample_checkpoint.state.commitment ≡ 32
unfolding add_messages_len add_result_len checkpoint_state_metadata
state_commitment = refl

pub state_len : sample_checkpoint.state.logical_len ≡ 30
unfolding add_messages_len add_result_len checkpoint_state_metadata
state_len = refl

pub torn_starts : starts_with_zero_reserve sample_torn ≡ false
unfolding starts_with_zero_reserve
torn_starts = refl

pub torn_probed : probe_hot_frame sample_torn ≡ ok torn
unfolding from_le_bytes hotwal_frame_read_u32 probe_footer probe_hot_frame
torn_probed = refl

-- The log, and the log that ends with 200 bytes of the frame and 300 zeros.
pub log_parts :
    (length (sample_frame ++ sample_torn) ≡ 498)
    × (length sample_frame ≡ 487)
    × (get_elem? (take (length sample_frame) (cut_frame 200 300 sample_frame)) 447 ≡ some 0)
    × (get_elem? sample_frame 447 ≡ some b'T')
unfolding to_le_bytes from_le_bytes NodeRecord-discrete RootRecord-discrete get_or_err read_le
    leaf_commitment validate_child_root from_node leaf encode_fields encode_body encode_node
    encode_root require_record_len read_byte read_array decode_leaf decode_kind decode_node
    decode_root StateMetadata-discrete VersionRecord-discrete CheckpointRecord-discrete root_bytes
    optional_root_bytes add_messages_len add_result_len checkpoint_state_metadata
    validate_parent_version validate_identifier validate_encodable_version_reference
    validate_version_reference decode_optional_version encode_optional_version decode_identifier
    publication_checks_require_record_len read_u32 read_u64 version_bytes encode_version
    decode_version validate_fields checkpoint_encoding_geometry validate_checkpoint_record
    checkpoint_prefix encode_checkpoint decode_identifiers decode_lengths decode_checkpoint
    WalGeometry-discrete validate_base_geometry advance_geometry next_geometry_from_counts
    version_id_for_local checked_total_len transaction_digest wal_geometry_read_u32
    wal_geometry_read_u64 local_node validate_node_codec validate_leaf validate_node node_ranges
    insert_range sort_ranges own_ranges validate_nodes validate_version_root validate_version
    validate_versions_from validate_versions local_version_root optional_version_root validate_state
    validate_checkpoint validate_transaction wal_header encode_nodes encode_versions seal
    encoded_geometry encode_transaction decode_nodes decode_versions decode_sections decode_body
    decode_transaction validate_request_id len_prefixed checkpoint_operation_digest digest_of_commit
    commit_records_read_u32 commit_records_read_u64 commit_header request_operation_digest
    seal_commit encode_commit decode_inner_wal_base check_operation_digest decode_commit_sections
    decode_commit_digests decode_commit encode_hot_frame same_node same_root decide ℕ_discrete
log_parts = (refl, refl, refl, refl)
