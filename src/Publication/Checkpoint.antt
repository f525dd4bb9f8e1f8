-- ===== src/Publication/Checkpoint.antt =====
-- `encode_v2_checkpoint` and `decode_v2_checkpoint` of publication_v2.rs.
use tulya_checkpoint_store.Prelude.{
  ℕ, ◌+◌, List, [], ◌∷◌, ◌++◌, Option, none, some, not, ◌||◌, ltb, ◌==◌, take, length, is_empty,
  if◌then◌else◌, Result, ok, ◌>>=◌, ◌>>◌, reject, checked_add, try_from, u32_max, u64_max,
}
use tulya_checkpoint_store.Format.Bytes.{to_le_bytes}
use tulya_checkpoint_store.Format.Reads.{get_or_err}
use tulya_checkpoint_store.Format.Codec.{same_bytes}
use tulya_checkpoint_store.Publication.Records.{
  Utf8, PublicationError, record_length, invalid, overflow, CheckpointRecord, max_identifier_bytes,
  min_canonical_state_bytes, checkpoint_schema,
}
use tulya_checkpoint_store.Publication.Checks.{
  validate_identifier, validate_encodable_version_reference, validate_version_reference, check_some,
  decode_optional_version, encode_optional_version, decode_identifier, read_u32, read_u64,
}

-- b"T2P2", and V2_CHECKPOINT_PREFIX_SIZE
abbrev pub checkpoint_magic : List ℕ
checkpoint_magic = b'T' ∷ b'2' ∷ b'P' ∷ b'2' ∷ []

abbrev pub checkpoint_prefix_size : ℕ
checkpoint_prefix_size = 88

-- `parent_checkpoint_id.as_deref().unwrap_or("")`
abbrev pub parent_or_empty : Option (List ℕ) → List ℕ
parent_or_empty none = []
parent_or_empty (some parent) = parent

-- `V2CheckpointEncodingGeometry`
pub record EncodingGeometry : Type 0 where
  pub record_len : ℕ
  pub thread_len : ℕ
  pub checkpoint_len : ℕ
  pub parent_len : ℕ

-- The checks of `checkpoint_encoding_geometry`.
unfoldable pub validate_fields : CheckpointRecord → Result PublicationError (Unit {0})
validate_fields checkpoint = do
  validate_identifier checkpoint.thread_id "v2 checkpoint thread id is invalid"
  validate_identifier checkpoint.checkpoint_id "v2 checkpoint id is invalid"
  check_some checkpoint.parent_checkpoint_id
      (λ parent. validate_identifier parent "v2 checkpoint parent id is invalid")
  validate_encodable_version_reference checkpoint.identity_version
  check_some checkpoint.messages_version validate_encodable_version_reference
  check_some checkpoint.result_version validate_encodable_version_reference
  reject (ltb checkpoint.state.logical_len min_canonical_state_bytes)
      (invalid "v2 checkpoint canonical length is too small")

-- `checkpoint_encoding_geometry`; the length as a `usize` and as a `u32` is one number.
unfoldable pub checkpoint_encoding_geometry :
    CheckpointRecord → Result PublicationError EncodingGeometry
checkpoint_encoding_geometry checkpoint = do
  validate_fields checkpoint
  let parent = parent_or_empty checkpoint.parent_checkpoint_id
  with_thread ←
      checked_add u64_max checkpoint_prefix_size (length checkpoint.thread_id)
        (overflow "v2 checkpoint record length exceeds usize")
  with_id ←
      checked_add u64_max with_thread (length checkpoint.checkpoint_id)
        (overflow "v2 checkpoint record length exceeds usize")
  record_len ←
      checked_add u64_max with_id (length parent)
        (overflow "v2 checkpoint record length exceeds usize")
  record_len_u32 ← try_from u32_max record_len (overflow "v2 checkpoint record length exceeds u32")
  thread_len ←
      try_from u32_max (length checkpoint.thread_id)
        (overflow "v2 checkpoint thread length exceeds u32")
  checkpoint_len ←
      try_from u32_max (length checkpoint.checkpoint_id)
        (overflow "v2 checkpoint id length exceeds u32")
  parent_len ← try_from u32_max (length parent) (overflow "v2 checkpoint parent length exceeds u32")
  ok (record {
    record_len = record_len_u32;
    thread_len = thread_len;
    checkpoint_len = checkpoint_len;
    parent_len = parent_len;
  })

-- `validate_v2_checkpoint_record`
unfoldable pub validate_checkpoint_record : CheckpointRecord → Result PublicationError (Unit {0})
validate_checkpoint_record checkpoint = do geometry ← checkpoint_encoding_geometry checkpoint; ok tt

-- The fixed part of the record.
unfoldable pub checkpoint_prefix : EncodingGeometry → CheckpointRecord → List ℕ
checkpoint_prefix geometry checkpoint =
    checkpoint_magic
    ++ (to_le_bytes 4 geometry.record_len
        ++ (to_le_bytes 4 checkpoint.checkpoint_no
            ++ (to_le_bytes 4 checkpoint.identity_version
                ++ (to_le_bytes 4 (encode_optional_version checkpoint.messages_version)
                    ++ (to_le_bytes 4 (encode_optional_version checkpoint.result_version)
                        ++ (to_le_bytes 4 geometry.thread_len
                            ++ (to_le_bytes 4 geometry.checkpoint_len
                                ++ (to_le_bytes 4 geometry.parent_len
                                    ++ (to_le_bytes 4 checkpoint_schema
                                        ++ (to_le_bytes 8 checkpoint.state.logical_len
                                            ++ (checkpoint.state.commitment
                                                ++ (to_le_bytes 4 0 ++ to_le_bytes 4 0))))))))))))

-- `encode_v2_checkpoint`
unfoldable pub encode_checkpoint : CheckpointRecord → Result PublicationError (List ℕ)
encode_checkpoint checkpoint = do
  geometry ← checkpoint_encoding_geometry checkpoint
  let output =
      checkpoint_prefix geometry checkpoint
      ++ (checkpoint.thread_id
          ++ (checkpoint.checkpoint_id ++ parent_or_empty checkpoint.parent_checkpoint_id))
  reject (not (length output == geometry.record_len))
      (invalid "v2 checkpoint encoder produced an unexpected byte length")
  ok output

-- The identifiers behind the fixed part, and the record.
unfoldable pub decode_identifiers :
    ⦃text : Utf8⦄
    → List ℕ
    → ℕ
    → ℕ
    → ℕ
    → (List ℕ → List ℕ → Option (List ℕ) → CheckpointRecord)
    → Result PublicationError CheckpointRecord
decode_identifiers bytes thread_len checkpoint_len parent_len build = do
  with_id ←
      checked_add u64_max thread_len checkpoint_len
        (overflow "v2 checkpoint identifier bytes exceed usize")
  payload_len ←
      checked_add u64_max with_id parent_len
        (overflow "v2 checkpoint identifier bytes exceed usize")
  payload_end ←
      checked_add u64_max checkpoint_prefix_size payload_len
        (overflow "v2 checkpoint payload end exceeds usize")
  reject (not (payload_end == length bytes)) (invalid "v2 checkpoint identifier geometry mismatch")
  let thread_start = checkpoint_prefix_size
  let thread_end = thread_start + thread_len
  let checkpoint_end = thread_end + checkpoint_len
  let parent_end = checkpoint_end + parent_len
  thread_part ←
      get_or_err bytes thread_start thread_end (invalid "v2 checkpoint thread bytes are truncated")
  thread_id ← decode_identifier thread_part "v2 checkpoint thread id is not UTF-8"
  checkpoint_part ←
      get_or_err bytes thread_end checkpoint_end (invalid "v2 checkpoint id bytes are truncated")
  checkpoint_id ← decode_identifier checkpoint_part "v2 checkpoint id is not UTF-8"
  parent_part ←
      get_or_err bytes checkpoint_end parent_end
        (invalid "v2 checkpoint parent bytes are truncated")
  parent ← decode_identifier parent_part "v2 checkpoint parent id is not UTF-8"
  ok (build thread_id checkpoint_id (if is_empty parent then none else some parent))

-- The fixed part from the lengths of the identifiers on, and then the identifiers.
unfoldable pub decode_lengths :
    ⦃text : Utf8⦄ → List ℕ → ℕ → ℕ → Option ℕ → Option ℕ → Result PublicationError CheckpointRecord
decode_lengths bytes checkpoint_no identity_version messages_version result_version = do
  thread_len ← read_u32 bytes 24 "v2 checkpoint thread length is truncated"
  checkpoint_len ← read_u32 bytes 28 "v2 checkpoint id length is truncated"
  parent_len ← read_u32 bytes 32 "v2 checkpoint parent length is truncated"
  reject (thread_len == 0 || ltb max_identifier_bytes thread_len)
      (invalid "v2 checkpoint thread id is invalid")
  reject (checkpoint_len == 0 || ltb max_identifier_bytes checkpoint_len)
      (invalid "v2 checkpoint id is invalid")
  reject (ltb max_identifier_bytes parent_len) (invalid "v2 checkpoint parent id is invalid")
  schema ← read_u32 bytes 36 "v2 checkpoint schema is truncated"
  reject (not (schema == checkpoint_schema)) (invalid "v2 checkpoint schema is unsupported")
  logical_len ← read_u64 bytes 40 "v2 checkpoint logical length is truncated"
  reject (ltb logical_len min_canonical_state_bytes)
      (invalid "v2 checkpoint canonical length is too small")
  commitment ← get_or_err bytes 48 80 (invalid "v2 checkpoint commitment is truncated")
  flags ← read_u32 bytes 80 "v2 checkpoint flags are truncated"
  reject (not (flags == 0)) (invalid "v2 checkpoint flags must be zero")
  reserved ← read_u32 bytes 84 "v2 checkpoint reserved field is truncated"
  reject (not (reserved == 0)) (invalid "v2 checkpoint reserved field must be zero")
  decode_identifiers bytes thread_len checkpoint_len parent_len (λ thread_id checkpoint_id parent.
      record {
        checkpoint_no = checkpoint_no;
        thread_id = thread_id;
        checkpoint_id = checkpoint_id;
        parent_checkpoint_id = parent;
        identity_version = identity_version;
        messages_version = messages_version;
        result_version = result_version;
        state = record { logical_len = logical_len; commitment = commitment };
      })

-- `decode_v2_checkpoint`
unfoldable pub decode_checkpoint :
    ⦃text : Utf8⦄ → List ℕ → ℕ → Result PublicationError CheckpointRecord
decode_checkpoint bytes version_count = do
  reject (ltb (length bytes) checkpoint_prefix_size)
      (invalid "v2 checkpoint record is shorter than its prefix")
  reject (not (same_bytes (take 4 bytes) checkpoint_magic)) (invalid "v2 checkpoint magic mismatch")
  record_len ← read_u32 bytes 4 "v2 checkpoint record length is truncated"
  reject (not (record_len == length bytes))
      (record_length "v2 checkpoint" record_len (length bytes))
  checkpoint_no ← read_u32 bytes 8 "v2 checkpoint number is truncated"
  identity_version ← read_u32 bytes 12 "v2 identity version is truncated"
  raw_messages ← read_u32 bytes 16 "v2 messages version is truncated"
  let messages_version = decode_optional_version raw_messages
  raw_result ← read_u32 bytes 20 "v2 result version is truncated"
  let result_version = decode_optional_version raw_result
  validate_version_reference identity_version version_count
  check_some messages_version (λ version. validate_version_reference version version_count)
  check_some result_version (λ version. validate_version_reference version version_count)
  decode_lengths bytes checkpoint_no identity_version messages_version result_version
