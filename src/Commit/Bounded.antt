-- ===== src/Commit/Bounded.antt =====
-- The watermarks of a commit that decodes stay in their ranges.
use tulya_checkpoint_store.Prelude.{ℕ, ◌+◌, ◌≤◌, ◌≡◌, List, arith, length, ok}
use tulya_checkpoint_store.Format.Records.{Sha256}
use tulya_checkpoint_store.Publication.Records.{Utf8, none_version}
use tulya_checkpoint_store.Wal.Records.{WalGeometry}
use tulya_checkpoint_store.Wal.Geometry.{
  validate_base_geometry, advance_geometry, next_geometry_from_counts,
}
use tulya_checkpoint_store.Wal.Seal.{GeometryFits}
use tulya_checkpoint_store.Wal.Sections.{validate_transaction-Validated}
use tulya_checkpoint_store.Commit.Records.{DecodedCommit}
use tulya_checkpoint_store.Commit.Codec.{decode_commit}
use tulya_checkpoint_store.Commit.Contents.{decode_commit-Contents}

-- The geometry behind a transaction.
pub next_geometry_inv :
    (base : WalGeometry) (payload_len node_count version_count : ℕ) {next : WalGeometry}
    → next_geometry_from_counts base payload_len node_count version_count ≡ ok next
    → (next.payload_len ≡ base.payload_len + payload_len)
      × (next.node_count ≡ base.node_count + node_count)
      × (next.version_count ≡ base.version_count + version_count)
      × (next.checkpoint_count ≡ base.checkpoint_count + 1)
      × GeometryFits next
unfolding next_geometry_from_counts advance_geometry validate_base_geometry
next_geometry_inv base payload_len node_count version_count h = ground arith

version_bound :
    (base : WalGeometry) (payload_len node_count version_count : ℕ) {next : WalGeometry}
    → next_geometry_from_counts base payload_len node_count version_count ≡ ok next
    → next.version_count ≤ none_version
unfolding next_geometry_from_counts advance_geometry validate_base_geometry
version_bound base payload_len node_count version_count h = ground arith

-- The geometry behind a commit that decodes is its base and the lengths of its parts, with one
-- checkpoint more; every watermark fits 64 bits, and the versions stay below the reserved identifier.
pub decode_commit-Bounded :
    ⦃sha : Sha256⦄ ⦃text : Utf8⦄
    → (bytes : List ℕ) {decoded : DecodedCommit} → decode_commit bytes ≡ ok decoded
    → (decoded.wal.next_geometry.payload_len
        ≡ decoded.encoded_base.payload_len + length decoded.wal.transaction.payload)
      × (decoded.wal.next_geometry.node_count
          ≡ decoded.encoded_base.node_count + length decoded.wal.transaction.nodes)
      × (decoded.wal.next_geometry.version_count
          ≡ decoded.encoded_base.version_count + length decoded.wal.transaction.versions)
      × (decoded.wal.next_geometry.checkpoint_count ≡ decoded.encoded_base.checkpoint_count + 1)
      × GeometryFits decoded.wal.next_geometry
      × (decoded.wal.next_geometry.version_count ≤ none_version)
decode_commit-Bounded bytes {decoded} h =
    let transaction = decoded.wal.transaction in
    let (valid, digest) = decode_commit-Contents bytes h in
    let (advances, nodes, versions, point) =
      validate_transaction-Validated decoded.encoded_base transaction decoded.wal.next_geometry
        valid in
    let (p, n, v, c, fits) =
      next_geometry_inv decoded.encoded_base (length transaction.payload) (length transaction.nodes)
        (length transaction.versions) advances in
    (
      p,
      n,
      v,
      c,
      fits,
      version_bound decoded.encoded_base (length transaction.payload) (length transaction.nodes)
          (length transaction.versions) advances,
    )
