-- ===== src/Wal/Geometry.antt =====
-- The arithmetic of transaction_v2.rs on geometries, identifiers and lengths, and its reads.
use mathlib.Core.Bool.{decide}
use tulya_checkpoint_store.Prelude.{
  ℕ, ◌*◌, List, ◌++◌, String, Bool, ltb, leb, if◌then◌else◌, Result, ok, err, ◌>>=◌, ◌>>◌, reject,
  checked_add, try_from, u32_max, u64_max,
}
use tulya_checkpoint_store.Format.Records.{Sha256}
use tulya_checkpoint_store.Format.Reads.{read_le}
use tulya_checkpoint_store.Publication.Records.{none_version}
use tulya_checkpoint_store.Wal.Records.{
  WalError, invalid, overflow, WalGeometry, WalGeometry-discrete, wal_domain, header_size,
  wal_node_record_size, wal_version_record_size,
}

-- `validate_base_geometry`
unfoldable pub validate_base_geometry : WalGeometry → Result WalError (Unit {0})
validate_base_geometry base =
    reject (ltb none_version base.version_count)
      (invalid "v2 WAL base version watermark exceeds the encodable range")

-- The watermarks after the deltas, with the count of versions given.
unfoldable pub advance_geometry : WalGeometry → ℕ → ℕ → ℕ → Result WalError WalGeometry
advance_geometry base payload_delta_len node_delta_count version_count = do
  payload_len ←
      checked_add u64_max base.payload_len payload_delta_len
        (overflow "v2 WAL payload watermark exceeds u64")
  node_count ←
      checked_add u64_max base.node_count node_delta_count
        (overflow "v2 WAL node watermark exceeds u64")
  checkpoint_count ←
      checked_add u64_max base.checkpoint_count 1
        (overflow "v2 WAL checkpoint watermark exceeds u64")
  ok (record {
    payload_len = payload_len;
    node_count = node_count;
    version_count = version_count;
    checkpoint_count = checkpoint_count;
  })

-- `next_geometry_from_counts`
unfoldable pub next_geometry_from_counts : WalGeometry → ℕ → ℕ → ℕ → Result WalError WalGeometry
next_geometry_from_counts base payload_delta_len node_delta_count version_delta_count = do
  validate_base_geometry base
  version_count ←
      checked_add u64_max base.version_count version_delta_count
        (overflow "v2 WAL version watermark exceeds u64")
  reject (ltb none_version version_count)
      (invalid "v2 WAL version watermark crosses the reserved none sentinel")
  advance_geometry base payload_delta_len node_delta_count version_count

-- `version_id_for_local`
unfoldable pub version_id_for_local : ℕ → ℕ → Result WalError ℕ
version_id_for_local base_version_count local = do
  id ←
      checked_add u64_max base_version_count local
        (overflow "v2 WAL version identifier exceeds u64")
  reject (leb none_version id)
      (invalid "v2 WAL version identifier reaches the reserved none sentinel")
  try_from u32_max id (overflow "v2 WAL version identifier exceeds u32")

-- `a.checked_mul(b).ok_or(e)?`
abbrev checked_mul {ℓ} : {E : Type ℓ} → ℕ → ℕ → ℕ → E → Result E ℕ
checked_mul greatest a b e = if leb (a * b) greatest then ok (a * b) else err e

-- `checked_total_len`
unfoldable pub checked_total_len : ℕ → ℕ → ℕ → ℕ → Result WalError ℕ
checked_total_len payload_len node_count version_count checkpoint_len = do
  node_bytes ←
      checked_mul u64_max node_count wal_node_record_size
        (overflow "v2 WAL node table length exceeds usize")
  version_bytes ←
      checked_mul u64_max version_count wal_version_record_size
        (overflow "v2 WAL version table length exceeds usize")
  with_payload ←
      checked_add u64_max header_size payload_len
        (overflow "v2 WAL transaction length exceeds usize")
  with_nodes ←
      checked_add u64_max with_payload node_bytes
        (overflow "v2 WAL transaction length exceeds usize")
  with_versions ←
      checked_add u64_max with_nodes version_bytes
        (overflow "v2 WAL transaction length exceeds usize")
  checked_add u64_max with_versions checkpoint_len
      (overflow "v2 WAL transaction length exceeds usize")

-- The comparison of two geometries.
abbrev pub same_geometry : WalGeometry → WalGeometry → Bool
same_geometry a b = decide (WalGeometry-discrete a b)

-- `transaction_digest`
unfoldable pub transaction_digest : ⦃sha : Sha256⦄ → List ℕ → List ℕ → List ℕ
transaction_digest ⦃sha⦄ header_prefix body = sha.digest (wal_domain ++ (header_prefix ++ body))

-- `read_u32` and `read_u64`
unfoldable pub read_u32 : List ℕ → ℕ → String → Result WalError ℕ
read_u32 bytes offset message =
    read_le 4 bytes offset (overflow "v2 WAL u32 range exceeds usize") (invalid message)

unfoldable pub read_u64 : List ℕ → ℕ → String → Result WalError ℕ
read_u64 bytes offset message =
    read_le 8 bytes offset (overflow "v2 WAL u64 range exceeds usize") (invalid message)
