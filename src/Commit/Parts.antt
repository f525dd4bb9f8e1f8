-- ===== src/Commit/Parts.antt =====
-- The header of an encoded commit and the base inside it, as the decoder reads them.
use tulya_checkpoint_store.Prelude.{
  ℕ, ◌+◌, ◌≤◌, ◌≡◌, refl, sym, ok, List, ◌++◌, arith, length, length-append, take, drop, replicate,
  ==_iff, le→ltb, u32_max,
}
use tulya_checkpoint_store.Format.Bytes.{to_le_bytes, from_le_bytes}
use tulya_checkpoint_store.Format.Records.{Sha256}
use tulya_checkpoint_store.Format.Fields.{u32_back, u64_back}
use tulya_checkpoint_store.Format.Reads.{read_le, read_le_head}
use tulya_checkpoint_store.Publication.Records.{Utf8}
use tulya_checkpoint_store.Wal.Records.{WalGeometry}
use tulya_checkpoint_store.Wal.Seal.{
  sealed_parts, header_prefix, length-header_prefix, prefix_magic, read_prefix, narrow_fields,
  wide_fields, GeometryFits,
}
use tulya_checkpoint_store.Commit.Records.{
  CommitError, invalid, overflow, commit_magic, digest_of_commit, read_u32, read_u64,
}
use tulya_checkpoint_store.Commit.Codec.{
  commit_header, seal_commit, decode_inner_wal_base, decode_commit_digests, decode_commit,
}

pub decode_inner_wal_base-header_prefix :
    (base : WalGeometry) (total_len payload_len node_count version_count checkpoint_len : ℕ)
    (tail : List ℕ)
    → GeometryFits base
    → decode_inner_wal_base
        (header_prefix base total_len payload_len node_count version_count checkpoint_len ++ tail)
      ≡ ok base
unfolding decode_inner_wal_base read_u32 read_u64
decode_inner_wal_base-header_prefix base total_len payload_len node_count version_count
      checkpoint_len tail (b1, b2, b3, b4) =
    let prefix = header_prefix base total_len payload_len node_count version_count checkpoint_len in
    let read =
      read_prefix base total_len payload_len node_count version_count checkpoint_len
        {E = CommitError} tail in
    let (at4, at8, at12, at72, at76, at80, at84) =
      narrow_fields base total_len payload_len node_count version_count checkpoint_len in
    let (at16, at24, at32, at40, at48, at56, at64) =
      wide_fields base total_len payload_len node_count version_count checkpoint_len in
    let e : length prefix ≡ 88 =
      length-header_prefix base total_len payload_len node_count version_count checkpoint_len in
    let u32_far : CommitError = overflow "v2 commit u32 range exceeds usize" in
    let u64_far : CommitError = overflow "v2 commit u64 range exceeds usize" in
    rw
      (
        le→ltb (length (prefix ++ tail)) 72 (omega (arith, e, length-append {0} prefix tail)),
        prefix_magic base total_len payload_len node_count version_count checkpoint_len tail,
        read 4 8 u32_far (invalid "v2 commit inner WAL schema is truncated") (omega arith),
        at8,
        read 8 16 u64_far (invalid "v2 commit payload watermark is truncated") (omega arith),
        at16,
        u64_back base.payload_len b1,
        read 8 32 u64_far (invalid "v2 commit node watermark is truncated") (omega arith),
        at32,
        u64_back base.node_count b2,
        read 8 48 u64_far (invalid "v2 commit version watermark is truncated") (omega arith),
        at48,
        u64_back base.version_count b3,
        read 8 64 u64_far (invalid "v2 commit checkpoint watermark is truncated") (omega arith),
        at64,
        u64_back base.checkpoint_count b4,
      )
      refl

-- The 24 bytes before the operation digest.
module _ (total_len wal_len request_len : ℕ) where
  unfoldable pub commit_front : List ℕ
  commit_front =
      commit_magic
      ++ (to_le_bytes 4 total_len
          ++ (to_le_bytes 4 1
              ++ (to_le_bytes 4 0 ++ (to_le_bytes 4 wal_len ++ to_le_bytes 4 request_len))))

  pub length-commit_front : length commit_front ≡ 24
  unfolding commit_front to_le_bytes
  length-commit_front = refl

  pub commit_header_eq :
      (operation_digest : List ℕ)
      → length operation_digest ≡ 32
      → commit_header total_len wal_len request_len operation_digest
        ≡ (commit_front ++ operation_digest) ++ replicate 32 0
  unfolding commit_header commit_front to_le_bytes
  commit_header_eq operation_digest e = rw e refl

  abbrev commit_field : ℕ → List ℕ
  commit_field offset = take 4 (drop offset commit_front)

  commit_fields :
      (commit_field 4 ≡ to_le_bytes 4 total_len)
      × (from_le_bytes (commit_field 8) ≡ 1)
      × (from_le_bytes (commit_field 12) ≡ 0)
      × (commit_field 16 ≡ to_le_bytes 4 wal_len)
      × (commit_field 20 ≡ to_le_bytes 4 request_len)
  unfolding commit_front to_le_bytes from_le_bytes
  commit_fields = (refl, refl, refl, refl, refl)

  commit_front_magic : (tail : List ℕ) → take 4 (commit_front ++ tail) ≡ commit_magic
  unfolding commit_front
  commit_front_magic tail = refl

  read_front :
      (tail : List ℕ) (offset : ℕ) (too_far missing : CommitError)
      → offset + 4 ≤ 24
      → read_le 4 (commit_front ++ tail) offset too_far missing
        ≡ ok (from_le_bytes (commit_field offset))
  read_front tail offset too_far missing h =
      let f = length-commit_front in
      read_le_head commit_front tail 4 offset too_far missing (omega (arith, f)) (omega (arith, f))

-- A sealed commit is its header without a digest, the digest, and its body.
pub seal_commit_eq :
    ⦃sha : Sha256⦄
    → (front gap body : List ℕ) → length front ≡ 56
    → length gap ≡ 32
    → seal_commit ((front ++ gap) ++ body) ≡ front ++ (digest_of_commit front body ++ body)
unfolding seal_commit digest_of_commit
seal_commit_eq ⦃sha⦄ front gap body e f =
    let (first, last) = sealed_parts front gap body 56 88 e (omega (arith, f)) in
    let wide : length (digest_of_commit front body) ≡ 32 = sha.length-digest _ in
    rw
      (
        first,
        last,
        (sealed_parts front gap body 56 (56 + length (digest_of_commit front body)) e
            (omega (arith, f, wide))).1,
      )
      refl

pub decode_commit_header :
    ⦃sha : Sha256⦄ ⦃text : Utf8⦄
    → (total_len wal_len request_len : ℕ) (tail : List ℕ) → total_len ≤ u32_max
    → wal_len ≤ u32_max
    → request_len ≤ 4096
    → 24 + length tail ≡ total_len
    → 64 ≤ length tail
    → decode_commit (commit_front total_len wal_len request_len ++ tail)
      ≡ decode_commit_digests
          (commit_front total_len wal_len request_len ++ tail)
          wal_len
          request_len
unfolding decode_commit read_u32
decode_commit_header total_len wal_len request_len tail f1 f2 f3 size long =
    let front = commit_front total_len wal_len request_len in
    let e : length front ≡ 24 = length-commit_front total_len wal_len request_len in
    let total : length (front ++ tail) ≡ total_len =
      omega (arith, e, size, length-append {0} front tail) in
    let (at4, at8, at12, at16, at20) = commit_fields total_len wal_len request_len in
    let read = read_front total_len wal_len request_len tail in
    let far : CommitError = overflow "v2 commit u32 range exceeds usize" in
    rw
      (
        le→ltb (length (front ++ tail)) 88 (omega (arith, total, size)),
        commit_front_magic total_len wal_len request_len tail,
        read 4 far (invalid "v2 commit length is truncated") (omega arith),
        at4,
        u32_back total_len f1,
        (==_iff total_len (length (front ++ tail))).1 (sym total),
        read 8 far (invalid "v2 commit schema is truncated") (omega arith),
        at8,
        read 12 far (invalid "v2 commit flags are truncated") (omega arith),
        at12,
        read 16 far (invalid "v2 commit WAL length is truncated") (omega arith),
        at16,
        u32_back wal_len f2,
        read 20 far (invalid "v2 commit request id length is truncated") (omega arith),
        at20,
        u32_back request_len (omega arith),
        le→ltb 4096 request_len f3,
      )
      refl
