-- ===== src/Wal/Seal.antt =====
-- The header of an encoded transaction: its fields, its digest, and how the decoder reads them.
use tulya_checkpoint_store.Prelude.{
  ℕ, ◌+◌, ◌≤◌, ◌≡◌, ◌∙◌, refl, ap, sym, ok, List, ◌++◌, arith, length, length-append, append_assoc,
  take, drop, replicate, take_front, drop_front, ==_iff, ==_refl, le→ltb, u32_max, u64_max,
}
use tulya_checkpoint_store.Format.Bytes.{to_le_bytes, from_le_bytes}
use tulya_checkpoint_store.Format.Records.{Sha256}
use tulya_checkpoint_store.Format.Fields.{u32_back, u64_back}
use tulya_checkpoint_store.Format.Reads.{read_le, read_le_head}
use tulya_checkpoint_store.Publication.Records.{Utf8}
use tulya_checkpoint_store.Wal.Records.{
  WalError, invalid, overflow, WalGeometry, wal_magic, wal_schema,
}
use tulya_checkpoint_store.Wal.Geometry.{transaction_digest, read_u32, read_u64}
use tulya_checkpoint_store.Wal.Codec.{wal_header, seal, decode_body, decode_transaction}

-- The parts that a digest is taken of.
pub sealed_parts :
    (front gap body : List ℕ) (start end : ℕ)
    → length front ≡ start
    → start + length gap ≡ end
    → (take start ((front ++ gap) ++ body) ≡ front) × (drop end ((front ++ gap) ++ body) ≡ body)
sealed_parts front gap body start end e f = (
  ap (take start) (append_assoc front gap body) ∙ take_front front (gap ++ body) start e,
  drop_front (front ++ gap) body end (omega (arith, e, f, length-append {0} front gap)),
)

-- A sealed transaction is its header without a digest, the digest, and its body.
pub seal_eq :
    ⦃sha : Sha256⦄
    → (front gap body : List ℕ) → length front ≡ 88
    → length gap ≡ 32
    → seal ((front ++ gap) ++ body) ≡ front ++ (transaction_digest front body ++ body)
unfolding seal transaction_digest
seal_eq ⦃sha⦄ front gap body e f =
    let (first, last) = sealed_parts front gap body 88 120 e (omega (arith, f)) in
    let wide : length (transaction_digest front body) ≡ 32 = sha.length-digest _ in
    rw
      (
        first,
        last,
        (sealed_parts front gap body 88 (88 + length (transaction_digest front body)) e
            (omega (arith, f, wide))).1,
      )
      refl

-- The 88 bytes before the digest.
module _ (base : WalGeometry)
    (total_len payload_len node_count version_count checkpoint_len : ℕ) where
  unfoldable pub header_prefix : List ℕ
  header_prefix =
      wal_magic
      ++ (to_le_bytes 4 total_len
          ++ (to_le_bytes 4 1
              ++ (to_le_bytes 4 0
                  ++ (to_le_bytes 8 base.payload_len
                      ++ (to_le_bytes 8 payload_len
                          ++ (to_le_bytes 8 base.node_count
                              ++ (to_le_bytes 8 node_count
                                  ++ (to_le_bytes 8 base.version_count
                                      ++ (to_le_bytes 8 version_count
                                          ++ (to_le_bytes 8 base.checkpoint_count
                                              ++ (to_le_bytes 4 checkpoint_len
                                                  ++ (to_le_bytes 4 72
                                                      ++ (to_le_bytes 4 72
                                                          ++ to_le_bytes 4 0)))))))))))))

  pub wal_header_eq :
      wal_header base total_len payload_len node_count version_count checkpoint_len
      ≡ header_prefix ++ replicate 32 0
  unfolding wal_header header_prefix to_le_bytes
  wal_header_eq = refl

  pub length-header_prefix : length header_prefix ≡ 88
  unfolding header_prefix to_le_bytes
  length-header_prefix = refl

  pub prefix_magic : (tail : List ℕ) → take 4 (header_prefix ++ tail) ≡ wal_magic
  unfolding header_prefix
  prefix_magic tail = refl

  pub read_prefix :
      {E : Type 0} (tail : List ℕ) (n offset : ℕ) (too_far missing : E)
      → offset + n ≤ 88
      → read_le n (header_prefix ++ tail) offset too_far missing
        ≡ ok (from_le_bytes (take n (drop offset header_prefix)))
  read_prefix tail n offset too_far missing h =
      let f = length-header_prefix in
      read_le_head header_prefix tail n offset too_far missing (omega (arith, f)) (omega (arith, f))

  abbrev pub narrow_at : ℕ → List ℕ
  narrow_at offset = take 4 (drop offset header_prefix)

  abbrev pub wide_at : ℕ → List ℕ
  wide_at offset = take 8 (drop offset header_prefix)

  pub narrow_fields :
      (narrow_at 4 ≡ to_le_bytes 4 total_len)
      × (from_le_bytes (narrow_at 8) ≡ wal_schema)
      × (from_le_bytes (narrow_at 12) ≡ 0)
      × (narrow_at 72 ≡ to_le_bytes 4 checkpoint_len)
      × (from_le_bytes (narrow_at 76) ≡ 72)
      × (from_le_bytes (narrow_at 80) ≡ 72)
      × (from_le_bytes (narrow_at 84) ≡ 0)
  unfolding header_prefix to_le_bytes from_le_bytes
  narrow_fields = (refl, refl, refl, refl, refl, refl, refl)

  pub wide_fields :
      (wide_at 16 ≡ to_le_bytes 8 base.payload_len)
      × (wide_at 24 ≡ to_le_bytes 8 payload_len)
      × (wide_at 32 ≡ to_le_bytes 8 base.node_count)
      × (wide_at 40 ≡ to_le_bytes 8 node_count)
      × (wide_at 48 ≡ to_le_bytes 8 base.version_count)
      × (wide_at 56 ≡ to_le_bytes 8 version_count)
      × (wide_at 64 ≡ to_le_bytes 8 base.checkpoint_count)
  unfolding header_prefix to_le_bytes
  wide_fields = (refl, refl, refl, refl, refl, refl, refl)

-- The fields of a geometry are `u64`.
abbrev pub GeometryFits : WalGeometry → Type 0
GeometryFits base =
    (base.payload_len ≤ u64_max)
    × (base.node_count ≤ u64_max)
    × (base.version_count ≤ u64_max)
    × (base.checkpoint_count ≤ u64_max)

pub decode_header :
    ⦃sha : Sha256⦄ ⦃text : Utf8⦄
    → (base : WalGeometry) (total_len payload_len node_count version_count checkpoint_len : ℕ)
      (tail : List ℕ)
    → GeometryFits base
    → total_len ≤ u32_max
    → payload_len ≤ u64_max
    → node_count ≤ u64_max
    → version_count ≤ u64_max
    → checkpoint_len ≤ u32_max
    → 88 + length tail ≡ total_len
    → 32 ≤ length tail
    → decode_transaction
        (header_prefix base total_len payload_len node_count version_count checkpoint_len ++ tail)
        base
      ≡ decode_body
          (header_prefix base total_len payload_len node_count version_count checkpoint_len ++ tail)
          base
          payload_len
          node_count
          version_count
          checkpoint_len
unfolding decode_transaction read_u32 read_u64
decode_header base total_len payload_len node_count version_count checkpoint_len tail
      (b1, b2, b3, b4) f1 f2 f3 f4 f5 size long =
    let prefix = header_prefix base total_len payload_len node_count version_count checkpoint_len in
    let read =
      read_prefix base total_len payload_len node_count version_count checkpoint_len {E = WalError}
        tail in
    let (at4, at8, at12, at72, at76, at80, at84) =
      narrow_fields base total_len payload_len node_count version_count checkpoint_len in
    let (at16, at24, at32, at40, at48, at56, at64) =
      wide_fields base total_len payload_len node_count version_count checkpoint_len in
    let e : length prefix ≡ 88 =
      length-header_prefix base total_len payload_len node_count version_count checkpoint_len in
    let total : length (prefix ++ tail) ≡ total_len =
      omega (arith, e, size, length-append {0} prefix tail) in
    let u32_far : WalError = overflow "v2 WAL u32 range exceeds usize" in
    let u64_far : WalError = overflow "v2 WAL u64 range exceeds usize" in
    rw
      (
        le→ltb (length (prefix ++ tail)) 120 (omega (arith, total, size)),
        prefix_magic base total_len payload_len node_count version_count checkpoint_len tail,
        read 4 4 u32_far (invalid "v2 WAL length is truncated") (omega arith),
        at4,
        u32_back total_len f1,
        (==_iff total_len (length (prefix ++ tail))).1 (sym total),
        read 4 8 u32_far (invalid "v2 WAL schema is truncated") (omega arith),
        at8,
        read 4 12 u32_far (invalid "v2 WAL flags are truncated") (omega arith),
        at12,
        read 8 16 u64_far (invalid "v2 WAL payload start is truncated") (omega arith),
        at16,
        u64_back base.payload_len b1,
        read 8 24 u64_far (invalid "v2 WAL payload length is truncated") (omega arith),
        at24,
        u64_back payload_len f2,
        read 8 32 u64_far (invalid "v2 WAL node start is truncated") (omega arith),
        at32,
        u64_back base.node_count b2,
        read 8 40 u64_far (invalid "v2 WAL node count is truncated") (omega arith),
        at40,
        u64_back node_count f3,
      )
      (rw
        (
          read 8 48 u64_far (invalid "v2 WAL version start is truncated") (omega arith),
          at48,
          u64_back base.version_count b3,
          read 8 56 u64_far (invalid "v2 WAL version count is truncated") (omega arith),
          at56,
          u64_back version_count f4,
          read 8 64 u64_far (invalid "v2 WAL checkpoint start is truncated") (omega arith),
          at64,
          u64_back base.checkpoint_count b4,
          read 4 72 u32_far (invalid "v2 WAL checkpoint record length is truncated") (omega arith),
          at72,
          u32_back checkpoint_len f5,
          read 4 76 u32_far (invalid "v2 WAL node record width is truncated") (omega arith),
          at76,
          read 4 80 u32_far (invalid "v2 WAL version record width is truncated") (omega arith),
          at80,
          read 4 84 u32_far (invalid "v2 WAL reserved field is truncated") (omega arith),
          at84,
          ==_refl base.payload_len,
          ==_refl base.node_count,
          ==_refl base.version_count,
          ==_refl base.checkpoint_count,
        )
        refl)
