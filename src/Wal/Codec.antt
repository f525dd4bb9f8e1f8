-- ===== src/Wal/Codec.antt =====
-- `encode_v2_wal_transaction` and `decode_v2_wal_transaction` of transaction_v2.rs.
use tulya_checkpoint_store.Prelude.{
  ℕ, zero, suc, List, [], ◌∷◌, ◌++◌, not, ◌||◌, ltb, ◌==◌, length, take, drop, replicate, Result,
  ok, ◌>>=◌, ◌>>◌, reject, map_err, checked_add, try_from, u32_max, u64_max,
}
use tulya_checkpoint_store.Format.Bytes.{to_le_bytes}
use tulya_checkpoint_store.Format.Records.{Sha256, NodeRecord}
use tulya_checkpoint_store.Format.Reads.{get_or_err}
use tulya_checkpoint_store.Format.Codec.{same_bytes, copy_at, encode_node, decode_node}
use tulya_checkpoint_store.Publication.Records.{Utf8, VersionRecord}
use tulya_checkpoint_store.Publication.Version.{encode_version, decode_version}
use tulya_checkpoint_store.Publication.Checkpoint.{encode_checkpoint, decode_checkpoint}
use tulya_checkpoint_store.Wal.Records.{
  WalError, format_error, publication_error, invalid, overflow, WalGeometry, WalTransaction,
  DecodedWalTransaction, wal_magic, wal_schema, header_prefix_size, header_size, digest_offset,
  wal_node_record_size, wal_version_record_size,
}
use tulya_checkpoint_store.Wal.Geometry.{
  next_geometry_from_counts, version_id_for_local, checked_total_len, same_geometry,
  transaction_digest, read_u32, read_u64,
}
use tulya_checkpoint_store.Wal.Validate.{validate_transaction}

-- The writes into the zeroed header, before the digest.
unfoldable pub wal_header : WalGeometry → ℕ → ℕ → ℕ → ℕ → ℕ → List ℕ
wal_header base total_len payload_len node_count version_count checkpoint_len =
    copy_at 84 (to_le_bytes 4 0) (
      copy_at 80 (to_le_bytes 4 wal_version_record_size) (
        copy_at 76 (to_le_bytes 4 wal_node_record_size) (
          copy_at 72 (to_le_bytes 4 checkpoint_len) (
            copy_at 64 (to_le_bytes 8 base.checkpoint_count) (
              copy_at 56 (to_le_bytes 8 version_count) (
                copy_at 48 (to_le_bytes 8 base.version_count) (
                  copy_at 40 (to_le_bytes 8 node_count) (
                    copy_at 32 (to_le_bytes 8 base.node_count) (
                      copy_at 24 (to_le_bytes 8 payload_len) (
                        copy_at 16 (to_le_bytes 8 base.payload_len) (
                          copy_at 12 (to_le_bytes 4 0) (
                            copy_at 8 (to_le_bytes 4 wal_schema) (
                              copy_at 4 (to_le_bytes 4 total_len)
                                (copy_at 0 wal_magic (replicate header_size 0)))))))))))))))

-- The loops that append the nodes and the versions.
unfoldable pub encode_nodes : List NodeRecord → List ℕ
encode_nodes [] = []
encode_nodes (node ∷ nodes) = encode_node node ++ encode_nodes nodes

unfoldable pub encode_versions : List VersionRecord → Result WalError (List ℕ)
encode_versions [] = ok []
encode_versions (version ∷ versions) = do
  encoded ← map_err publication_error (encode_version version)
  rest ← encode_versions versions
  ok (encoded ++ rest)

-- The write of the digest.
unfoldable pub seal : ⦃sha : Sha256⦄ → List ℕ → List ℕ
seal output =
    copy_at digest_offset
      (transaction_digest (take header_prefix_size output) (drop header_size output)) output

-- The geometry that the encoder computes again; its version count is only checked to be a `u64`.
unfoldable pub encoded_geometry : WalGeometry → ℕ → ℕ → ℕ → Result WalError WalGeometry
encoded_geometry base payload_len node_count version_count = do
  next_payload ←
      checked_add u64_max base.payload_len payload_len
        (overflow "v2 WAL payload watermark exceeds u64")
  next_nodes ←
      checked_add u64_max base.node_count node_count (overflow "v2 WAL node watermark exceeds u64")
  next_versions ←
      checked_add u64_max base.version_count version_count
        (overflow "v2 WAL version watermark exceeds u64")
  next_checkpoints ←
      checked_add u64_max base.checkpoint_count 1
        (overflow "v2 WAL checkpoint watermark exceeds u64")
  ok (record {
    payload_len = next_payload;
    node_count = next_nodes;
    version_count = next_versions;
    checkpoint_count = next_checkpoints;
  })

module _ ⦃sha : Sha256⦄ ⦃text : Utf8⦄ where
  -- `encode_v2_wal_transaction`
  unfoldable pub encode_transaction : WalGeometry → WalTransaction → Result WalError (List ℕ)
  encode_transaction base transaction = do
    next_geometry ← validate_transaction base transaction
    checkpoint ← map_err publication_error (encode_checkpoint transaction.checkpoint)
    payload_len ←
        try_from u64_max (length transaction.payload)
          (overflow "v2 WAL payload delta length exceeds u64")
    node_count ←
        try_from u64_max (length transaction.nodes) (overflow "v2 WAL node delta count exceeds u64")
    version_count ←
        try_from u64_max (length transaction.versions)
          (overflow "v2 WAL version delta count exceeds u64")
    checkpoint_len ←
        try_from u32_max (length checkpoint)
          (overflow "v2 WAL checkpoint record length exceeds u32")
    total_len ←
        checked_total_len (length transaction.payload) (length transaction.nodes)
          (length transaction.versions) (length checkpoint)
    total_len_u32 ← try_from u32_max total_len (overflow "v2 WAL transaction length exceeds u32")
    versions ← encode_versions transaction.versions
    let output =
        wal_header base total_len_u32 payload_len node_count version_count checkpoint_len
        ++ (transaction.payload ++ (encode_nodes transaction.nodes ++ (versions ++ checkpoint)))
    reject (not (length output == total_len))
        (invalid "v2 WAL encoder produced an unexpected byte length")
    encoded_next ← encoded_geometry base payload_len node_count version_count
    reject (not (same_geometry encoded_next next_geometry))
        (invalid "v2 WAL validated geometry changed during encoding")
    ok (seal output)

-- The loop over the nodes; the nodes, and the cursor behind them.
unfoldable pub decode_nodes : ℕ → List ℕ → ℕ → Result WalError (List NodeRecord × ℕ)
decode_nodes zero bytes cursor = ok ([], cursor)
decode_nodes (suc count) bytes cursor = do
  end ← checked_add u64_max cursor wal_node_record_size (overflow "v2 WAL node range exceeds usize")
  encoded ← get_or_err bytes cursor end (invalid "v2 WAL node table is truncated")
  node ← map_err format_error (decode_node encoded)
  found ← decode_nodes count bytes end
  ok (node ∷ found.0, found.1)

-- The loop over the versions.
unfoldable pub decode_versions : ℕ → ℕ → ℕ → List ℕ → ℕ → Result WalError (List VersionRecord × ℕ)
decode_versions zero local base_version_count bytes cursor = ok ([], cursor)
decode_versions (suc count) local base_version_count bytes cursor = do
  end ←
      checked_add u64_max cursor wal_version_record_size
        (overflow "v2 WAL version range exceeds usize")
  version_id ← version_id_for_local base_version_count local
  encoded ← get_or_err bytes cursor end (invalid "v2 WAL version table is truncated")
  version ← map_err publication_error (decode_version encoded version_id)
  found ← decode_versions count (suc local) base_version_count bytes end
  ok (version ∷ found.0, found.1)

module _ ⦃text : Utf8⦄ where
  -- The sections behind the header.
  unfoldable pub decode_sections :
      List ℕ → WalGeometry → ℕ → ℕ → ℕ → ℕ → ℕ → Result WalError WalTransaction
  decode_sections bytes base payload_len node_count version_count checkpoint_len next_versions = do
    payload_end ←
        checked_add u64_max header_size payload_len (overflow "v2 WAL payload range exceeds usize")
    payload ← get_or_err bytes header_size payload_end (invalid "v2 WAL payload is truncated")
    nodes ← decode_nodes node_count bytes payload_end
    versions ← decode_versions version_count 0 base.version_count bytes nodes.1
    checkpoint_end ←
        checked_add u64_max versions.1 checkpoint_len
          (overflow "v2 WAL checkpoint range exceeds usize")
    encoded ←
        get_or_err bytes versions.1 checkpoint_end (invalid "v2 WAL checkpoint record is truncated")
    checkpoint ← map_err publication_error (decode_checkpoint encoded next_versions)
    reject (not (checkpoint_end == length bytes))
        (invalid "v2 WAL decoder did not consume all bytes")
    ok (record {
      payload = payload;
      nodes = nodes.0;
      versions = versions.0;
      checkpoint = checkpoint;
    })

module _ ⦃sha : Sha256⦄ ⦃text : Utf8⦄ where
  -- From the digest on.
  unfoldable pub decode_body :
      List ℕ → WalGeometry → ℕ → ℕ → ℕ → ℕ → Result WalError DecodedWalTransaction
  decode_body bytes base payload_len node_count version_count checkpoint_len = do
    stored_digest ←
        get_or_err bytes digest_offset header_size (invalid "v2 WAL digest is truncated")
    reject
        (not (
          same_bytes stored_digest
            (transaction_digest (take header_prefix_size bytes) (drop header_size bytes))))
        (invalid "v2 WAL digest mismatch")
    expected_len ← checked_total_len payload_len node_count version_count checkpoint_len
    reject (not (expected_len == length bytes)) (invalid "v2 WAL section geometry mismatch")
    header_next ← next_geometry_from_counts base payload_len node_count version_count
    transaction ←
        decode_sections bytes base payload_len node_count version_count checkpoint_len
          header_next.version_count
    next_geometry ← validate_transaction base transaction
    reject (not (same_geometry next_geometry header_next))
        (invalid "v2 WAL header geometry disagrees with decoded sections")
    ok (record { transaction = transaction; next_geometry = next_geometry; digest = stored_digest })

  -- `decode_v2_wal_transaction`
  unfoldable pub decode_transaction : List ℕ → WalGeometry → Result WalError DecodedWalTransaction
  decode_transaction bytes base = do
    reject (ltb (length bytes) header_size) (invalid "v2 WAL header is truncated")
    reject (not (same_bytes (take 4 bytes) wal_magic)) (invalid "v2 WAL magic mismatch")
    total_len ← read_u32 bytes 4 "v2 WAL length is truncated"
    reject (not (total_len == length bytes)) (invalid "v2 WAL transaction length mismatch")
    schema ← read_u32 bytes 8 "v2 WAL schema is truncated"
    reject (not (schema == wal_schema)) (invalid "v2 WAL schema is unsupported")
    flags ← read_u32 bytes 12 "v2 WAL flags are truncated"
    reject (not (flags == 0)) (invalid "v2 WAL flags must be zero")
    payload_start ← read_u64 bytes 16 "v2 WAL payload start is truncated"
    payload_len ← read_u64 bytes 24 "v2 WAL payload length is truncated"
    node_start ← read_u64 bytes 32 "v2 WAL node start is truncated"
    node_count ← read_u64 bytes 40 "v2 WAL node count is truncated"
    version_start ← read_u64 bytes 48 "v2 WAL version start is truncated"
    version_count ← read_u64 bytes 56 "v2 WAL version count is truncated"
    checkpoint_start ← read_u64 bytes 64 "v2 WAL checkpoint start is truncated"
    checkpoint_len ← read_u32 bytes 72 "v2 WAL checkpoint record length is truncated"
    node_width ← read_u32 bytes 76 "v2 WAL node record width is truncated"
    reject (not (node_width == wal_node_record_size))
        (invalid "v2 WAL node record width is unsupported")
    version_width ← read_u32 bytes 80 "v2 WAL version record width is truncated"
    reject (not (version_width == wal_version_record_size))
        (invalid "v2 WAL version record width is unsupported")
    reserved ← read_u32 bytes 84 "v2 WAL reserved field is truncated"
    reject (not (reserved == 0)) (invalid "v2 WAL reserved field must be zero")
    reject
        (not (payload_start == base.payload_len)
          || not (node_start == base.node_count)
          || not (version_start == base.version_count)
          || not (checkpoint_start == base.checkpoint_count))
        (invalid "v2 WAL transaction starting watermark mismatch")
    decode_body bytes base payload_len node_count version_count checkpoint_len
