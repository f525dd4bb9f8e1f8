-- ===== src/Commit/Codec.antt =====
-- `encode_v2_commit` and `decode_v2_commit` of commit_v2.rs.
use tulya_checkpoint_store.Prelude.{
  ℕ, List, [], ◌++◌, Option, none, some, not, ◌&&◌, ltb, ◌==◌, length, is_empty, take, drop,
  replicate, if◌then◌else◌, Result, ok, ◌>>=◌, ◌>>◌, reject, map_err, checked_add, try_from,
  u32_max, u64_max,
}
use tulya_checkpoint_store.Format.Bytes.{to_le_bytes}
use tulya_checkpoint_store.Format.Records.{Sha256}
use tulya_checkpoint_store.Format.Reads.{get_or_err}
use tulya_checkpoint_store.Format.Codec.{same_bytes, copy_at}
use tulya_checkpoint_store.Publication.Records.{Utf8, CheckpointRecord}
use tulya_checkpoint_store.Wal.Records.{WalGeometry, WalTransaction, wal_magic, wal_schema}
use tulya_checkpoint_store.Wal.Codec.{encode_transaction, decode_transaction}
use tulya_checkpoint_store.Commit.Records.{
  CommitError, wal_error, invalid, overflow, DecodedCommit, commit_magic, commit_schema,
  commit_prefix_size, commit_header_size, max_request_id_bytes, validate_request_id,
  checkpoint_operation_digest, digest_of_commit, read_u32, read_u64,
}

-- `request_id.map_or(…)` and the bytes that are appended for it.
abbrev pub request_bytes : Option (List ℕ) → List ℕ
request_bytes none = []
request_bytes (some request) = request

-- The writes into the zeroed header, before the digest.
unfoldable pub commit_header : ℕ → ℕ → ℕ → List ℕ → List ℕ
commit_header total_len wal_len request_len operation_digest = copy_at 24 operation_digest (
    copy_at 20 (to_le_bytes 4 request_len) (
      copy_at 16 (to_le_bytes 4 wal_len) (
        copy_at 12 (to_le_bytes 4 0) (
          copy_at 8 (to_le_bytes 4 commit_schema) (
            copy_at 4 (to_le_bytes 4 total_len)
              (copy_at 0 commit_magic (replicate commit_header_size 0)))))))

module _ ⦃sha : Sha256⦄ where
  -- `match request_id`
  unfoldable pub request_operation_digest :
      Option (List ℕ) → CheckpointRecord → Result CommitError (List ℕ)
  request_operation_digest none checkpoint = ok (replicate 32 0)
  request_operation_digest (some request) checkpoint = checkpoint_operation_digest checkpoint

  -- The write of the digest.
  unfoldable pub seal_commit : List ℕ → List ℕ
  seal_commit output =
      copy_at commit_prefix_size
        (digest_of_commit (take commit_prefix_size output) (drop commit_header_size output)) output

  module _ ⦃text : Utf8⦄ where
    -- `encode_v2_commit`
    unfoldable pub encode_commit :
        WalGeometry → WalTransaction → Option (List ℕ) → Result CommitError (List ℕ)
    encode_commit base transaction request_id = do
      validate_request_id request_id
      wal ← map_err wal_error (encode_transaction base transaction)
      operation_digest ← request_operation_digest request_id transaction.checkpoint
      let request_len = length (request_bytes request_id)
      request_len_u32 ←
          try_from u32_max request_len (overflow "v2 commit request id length exceeds u32")
      wal_len_u32 ←
          try_from u32_max (length wal) (overflow "v2 commit inner WAL length exceeds u32")
      with_wal ←
          checked_add u64_max commit_header_size (length wal)
            (overflow "v2 commit byte length exceeds usize")
      total_len ←
          checked_add u64_max with_wal request_len (overflow "v2 commit byte length exceeds usize")
      total_len_u32 ← try_from u32_max total_len (overflow "v2 commit byte length exceeds u32")
      let output =
          commit_header total_len_u32 wal_len_u32 request_len_u32 operation_digest
          ++ (wal ++ request_bytes request_id)
      reject (not (length output == total_len))
          (invalid "v2 commit encoder produced an unexpected byte length")
      ok (seal_commit output)

-- `decode_inner_wal_base`
unfoldable pub decode_inner_wal_base : List ℕ → Result CommitError WalGeometry
decode_inner_wal_base bytes = do
  reject (ltb (length bytes) 72) (invalid "v2 commit inner WAL header is truncated")
  reject (not (same_bytes (take 4 bytes) wal_magic)) (invalid "v2 commit inner WAL magic mismatch")
  schema ← read_u32 bytes 8 "v2 commit inner WAL schema is truncated"
  reject (not (schema == wal_schema)) (invalid "v2 commit inner WAL schema is unsupported")
  payload_len ← read_u64 bytes 16 "v2 commit payload watermark is truncated"
  node_count ← read_u64 bytes 32 "v2 commit node watermark is truncated"
  version_count ← read_u64 bytes 48 "v2 commit version watermark is truncated"
  checkpoint_count ← read_u64 bytes 64 "v2 commit checkpoint watermark is truncated"
  ok (record {
    payload_len = payload_len;
    node_count = node_count;
    version_count = version_count;
    checkpoint_count = checkpoint_count;
  })

module _ ⦃sha : Sha256⦄ where
  -- The operation digest that is returned.
  unfoldable pub check_operation_digest :
      ℕ → List ℕ → CheckpointRecord → Result CommitError (List ℕ)
  check_operation_digest request_len stored checkpoint =
      if request_len == 0 then ok (replicate 32 0) else (do
        expected ← checkpoint_operation_digest checkpoint
        reject (not (same_bytes stored expected))
            (invalid "v2 commit operation digest disagrees with checkpoint semantics")
        ok expected)

  module _ ⦃text : Utf8⦄ where
    -- The sections behind the header.
    unfoldable pub decode_commit_sections :
        List ℕ → ℕ → ℕ → List ℕ → List ℕ → Result CommitError DecodedCommit
    decode_commit_sections bytes wal_len request_len stored_operation_digest stored_commit_digest =
        do
          wal_end ←
              checked_add u64_max commit_header_size wal_len
                (overflow "v2 commit WAL range exceeds usize")
          request_end ←
              checked_add u64_max wal_end request_len
                (overflow "v2 commit request range exceeds usize")
          reject (not (request_end == length bytes)) (invalid "v2 commit section geometry mismatch")
          wal_bytes ←
              get_or_err bytes commit_header_size wal_end
                (invalid "v2 commit WAL bytes are truncated")
          request ←
              get_or_err bytes wal_end request_end (invalid "v2 commit request bytes are truncated")
          reject ((request_len == 0) && not (same_bytes stored_operation_digest (replicate 32 0)))
              (invalid "v2 requestless commit operation digest must be zero")
          reject (ltb 0 request_len && is_empty request) (invalid "v2 commit request id is empty")
          encoded_base ← decode_inner_wal_base wal_bytes
          wal ← map_err wal_error (decode_transaction wal_bytes encoded_base)
          operation_digest ←
              check_operation_digest request_len stored_operation_digest wal.transaction.checkpoint
          ok (record {
            encoded_base = encoded_base;
            wal = wal;
            request_id = if request_len == 0 then none else some request;
            operation_digest = operation_digest;
            commit_digest = stored_commit_digest;
          })

    -- The digests of the header.
    unfoldable pub decode_commit_digests : List ℕ → ℕ → ℕ → Result CommitError DecodedCommit
    decode_commit_digests bytes wal_len request_len = do
      stored_operation_digest ←
          get_or_err bytes 24 56 (invalid "v2 commit operation digest is truncated")
      stored_commit_digest ←
          get_or_err bytes commit_prefix_size commit_header_size
            (invalid "v2 commit digest is truncated")
      reject
          (not (
            same_bytes stored_commit_digest
              (digest_of_commit (take commit_prefix_size bytes) (drop commit_header_size bytes))))
          (invalid "v2 commit digest mismatch")
      decode_commit_sections bytes wal_len request_len stored_operation_digest stored_commit_digest

    -- `decode_v2_commit`
    unfoldable pub decode_commit : List ℕ → Result CommitError DecodedCommit
    decode_commit bytes = do
      reject (ltb (length bytes) commit_header_size) (invalid "v2 commit header is truncated")
      reject (not (same_bytes (take 4 bytes) commit_magic)) (invalid "v2 commit magic mismatch")
      total_len ← read_u32 bytes 4 "v2 commit length is truncated"
      reject (not (total_len == length bytes)) (invalid "v2 commit byte length mismatch")
      schema ← read_u32 bytes 8 "v2 commit schema is truncated"
      reject (not (schema == commit_schema)) (invalid "v2 commit schema is unsupported")
      flags ← read_u32 bytes 12 "v2 commit flags are truncated"
      reject (not (flags == 0)) (invalid "v2 commit flags must be zero")
      wal_len ← read_u32 bytes 16 "v2 commit WAL length is truncated"
      request_len ← read_u32 bytes 20 "v2 commit request id length is truncated"
      reject (ltb max_request_id_bytes request_len)
          (invalid "v2 commit request id exceeds the byte limit")
      decode_commit_digests bytes wal_len request_len
