-- ===== src/Wal/Sections.antt =====
-- The sections of a transaction behind its header, read back from the bytes of the encoder.
use mathlib.Core.Bool.{decide_iff}
use tulya_checkpoint_store.Prelude.{
  ℕ, ◌+◌, ◌≤◌, ◌≡◌, ◌∙◌, refl, ap, sym, List, [], ◌∷◌, ◌++◌, arith, length, length-append,
  append_assoc, slice, ==_iff, ==_refl, le→leb, true, true_of_not, ok, bind_inv, then_inv,
  try_from_inv, reject_inv, u64_max,
}
use tulya_checkpoint_store.Format.Records.{Sha256}
use tulya_checkpoint_store.Format.Codec.{same_bytes}
use tulya_checkpoint_store.Format.Reads.{get_or_err_found, slice_tail}
use tulya_checkpoint_store.Publication.Records.{Utf8, CheckpointRecord-discrete}
use tulya_checkpoint_store.Publication.Checkpoint.{encode_checkpoint, decode_checkpoint}
use tulya_checkpoint_store.Wal.Records.{
  invalid, publication_error, WalGeometry, WalGeometry-discrete, WalTransaction,
}
use tulya_checkpoint_store.Wal.Geometry.{
  validate_base_geometry, next_geometry_from_counts, checked_total_len, same_geometry,
}
use tulya_checkpoint_store.Wal.Nodes.{validate_nodes}
use tulya_checkpoint_store.Wal.Validate.{
  validate_versions, validate_checkpoint, validate_transaction,
}
use tulya_checkpoint_store.Wal.Codec.{encode_nodes, encode_versions, decode_sections}
use tulya_checkpoint_store.Wal.Bodies.{
  AllEncodable, IsSequential, map_err_inv, validate_nodes-AllEncodable,
  validate_versions-Sequential, get_part, decode_nodes-encode_nodes,
  decode_versions-encode_versions,
}

module _ ⦃sha : Sha256⦄ ⦃text : Utf8⦄ where
  validate_checkpoint-Decoded :
      (base next : WalGeometry) (transaction : WalTransaction)
      → validate_checkpoint base next transaction ≡ ok tt
      → (bytes : List ℕ) × (encode_checkpoint transaction.checkpoint ≡ ok bytes)
        × (decode_checkpoint bytes next.version_count ≡ ok transaction.checkpoint)
  unfolding validate_checkpoint
  validate_checkpoint-Decoded base next transaction h =
      let (bytes, h1, r1) = bind_inv h in
      let (decoded, h2, r2) = bind_inv r1 in
      let (h3, r3) = then_inv _ r2 in
      let same : decoded ≡ transaction.checkpoint =
        (decide_iff (CheckpointRecord-discrete decoded transaction.checkpoint)).0
          (true_of_not (reject_inv _ _ h3)) in
      (bytes, map_err_inv publication_error _ h1, map_err_inv publication_error _ h2 ∙ ap ok same)

  -- What the checks of a transaction establish.
  abbrev pub Validated : WalGeometry → WalTransaction → WalGeometry → Type 0
  Validated base transaction next =
      (next_geometry_from_counts base (length transaction.payload) (length transaction.nodes)
          (length transaction.versions)
        ≡ ok next)
      × AllEncodable transaction.nodes
      × IsSequential base.version_count 0 transaction.versions
      × ((bytes : List ℕ) × (encode_checkpoint transaction.checkpoint ≡ ok bytes)
          × (decode_checkpoint bytes next.version_count ≡ ok transaction.checkpoint))

  pub validate_transaction-Validated :
      (base : WalGeometry) (transaction : WalTransaction) (next : WalGeometry)
      → validate_transaction base transaction ≡ ok next
      → Validated base transaction next
  unfolding validate_transaction
  validate_transaction-Validated base transaction next h =
      let (h1, r1) = then_inv (validate_base_geometry base) h in
      let (h2, r2) = try_from_inv u64_max (length transaction.payload) _ _ r1 in
      let (h3, r3) = try_from_inv u64_max (length transaction.nodes) _ _ r2 in
      let (h4, r4) = try_from_inv u64_max (length transaction.versions) _ _ r3 in
      let (next', h5, r5) =
        bind_inv
          {m = next_geometry_from_counts base (length transaction.payload)
            (length transaction.nodes) (length transaction.versions)}
          r4 in
      let (h6, r6) = then_inv (validate_nodes base next' transaction) r5 in
      let (h7, r7) = then_inv (validate_versions base next' transaction) r6 in
      let (h8, r8) = then_inv (validate_checkpoint base next' transaction) r7 in
      let same : next' ≡ next = cc r8 in
      let (bytes, encodes, decodes) = validate_checkpoint-Decoded base next' transaction h8 in
      (
        h5 ∙ ap ok same,
        validate_nodes-AllEncodable base next' transaction h6,
        validate_versions-Sequential base next' transaction h7,
        (bytes, encodes, ap (λ g. decode_checkpoint bytes g.version_count) (sym same) ∙ decodes),
      )

-- The sections behind a header of 120 bytes are decoded by their counts.
pub decode_sections_found :
    ⦃text : Utf8⦄
    → (bytes front : List ℕ) (base : WalGeometry) (transaction : WalTransaction)
      (table checkpoint : List ℕ) (version_count : ℕ)
    → AllEncodable transaction.nodes
    → IsSequential base.version_count 0 transaction.versions
    → encode_versions transaction.versions ≡ ok table
    → decode_checkpoint checkpoint version_count ≡ ok transaction.checkpoint
    → length front ≡ 120
    → bytes
      ≡ front ++ (transaction.payload ++ (encode_nodes transaction.nodes ++ (table ++ checkpoint)))
    → length bytes ≤ u64_max
    → decode_sections bytes base
        (length transaction.payload)
        (length transaction.nodes)
        (length transaction.versions)
        (length checkpoint)
        version_count
      ≡ ok transaction
unfolding decode_sections
decode_sections_found bytes front base transaction table checkpoint version_count nodes versions
      encodes decodes at is small =
    let payload = transaction.payload in
    let table' = encode_nodes transaction.nodes in
    let total : length bytes
        ≡ 120 + length payload + length table' + length table + length checkpoint =
      omega (
        arith,
        ap length is,
        at,
        length-append {0} front (payload ++ (table' ++ (table ++ checkpoint))),
        length-append {0} payload (table' ++ (table ++ checkpoint)),
        length-append {0} table' (table ++ checkpoint),
        length-append {0} table checkpoint,
      ) in
    let is1 : bytes ≡ (front ++ payload) ++ (table' ++ (table ++ checkpoint)) =
      is ∙ sym (append_assoc front payload _) in
    let is2 : bytes ≡ ((front ++ payload) ++ table') ++ (table ++ checkpoint) =
      is1 ∙ sym (append_assoc (front ++ payload) table' _) in
    let is3 : bytes ≡ (((front ++ payload) ++ table') ++ table) ++ checkpoint =
      is2 ∙ sym (append_assoc ((front ++ payload) ++ table') table checkpoint) in
    let at1 : length (front ++ payload) ≡ 120 + length payload =
      omega (arith, at, length-append {0} front payload) in
    let at2 : length ((front ++ payload) ++ table') ≡ 120 + length payload + length table' =
      omega (arith, at1, length-append {0} (front ++ payload) table') in
    let at3 : length (((front ++ payload) ++ table') ++ table)
        ≡ 120 + length payload + length table' + length table =
      omega (arith, at2, length-append {0} ((front ++ payload) ++ table') table) in
    let end = 120 + length payload + length table' + length table in
    rw
      (
        le→leb (120 + length payload) u64_max (omega (arith, total)),
        get_part bytes front payload _ 120 (length payload) (invalid "v2 WAL payload is truncated")
            is at refl,
        decode_nodes-encode_nodes bytes (front ++ payload) transaction.nodes (table ++ checkpoint)
            (120 + length payload) nodes is1 at1 (omega (arith, total)),
        decode_versions-encode_versions bytes ((front ++ payload) ++ table') transaction.versions
            checkpoint base.version_count 0 (120 + length payload + length table') versions encodes
            is2 at2 (omega (arith, total)),
        le→leb (end + length checkpoint) u64_max (omega (arith, total)),
        get_or_err_found bytes end (end + length checkpoint)
            (invalid "v2 WAL checkpoint record is truncated")
            (ap (λ l. slice l end (end + length checkpoint)) is3
              ∙ slice_tail (((front ++ payload) ++ table') ++ table) checkpoint end
                  (end + length checkpoint) at3 (omega (arith, at3))),
        decodes,
        (==_iff (end + length checkpoint) (length bytes)).1 (sym total),
      )
      refl

pub same_geometry_refl : (geometry : WalGeometry) → same_geometry geometry geometry ≡ true
same_geometry_refl geometry = (decide_iff (WalGeometry-discrete geometry geometry)).1 refl

pub same_bytes_refl : (bytes : List ℕ) → same_bytes bytes bytes ≡ true
same_bytes_refl [] = refl
same_bytes_refl (b ∷ bytes) = rw (==_refl b) (same_bytes_refl bytes)

-- A total that fits bounds the counts that it is made of.
pub checked_total_len_inv :
    (payload_len node_count version_count checkpoint_len : ℕ) {total : ℕ}
    → checked_total_len payload_len node_count version_count checkpoint_len ≡ ok total
    → (payload_len ≤ u64_max) × (node_count ≤ u64_max) × (version_count ≤ u64_max)
unfolding checked_total_len
checked_total_len_inv payload_len node_count version_count checkpoint_len h = ground arith
