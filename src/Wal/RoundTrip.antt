-- ===== src/Wal/RoundTrip.antt =====
-- A transaction that is encoded is decoded as itself.
use tulya_checkpoint_store.Prelude.{
  ℕ, ◌+◌, ◌≤◌, ◌≡◌, ◌∙◌, refl, ap, sym, List, ◌++◌, arith, length, length-append, append_assoc,
  take, drop, replicate, take_front, drop_front, ==_iff, true, true_of_not, ok, map_err, bind_inv,
  then_inv, try_from_inv, ok_of_then, reject_inv, u32_max, u64_max,
}
use tulya_checkpoint_store.Format.Records.{Sha256}
use tulya_checkpoint_store.Format.Codec.{same_bytes}
use tulya_checkpoint_store.Format.Reads.{get_or_err, get_or_err_found, slice_middle}
use tulya_checkpoint_store.Publication.Records.{Utf8}
use tulya_checkpoint_store.Publication.Checkpoint.{encode_checkpoint, decode_checkpoint}
use tulya_checkpoint_store.Wal.Records.{
  invalid, publication_error, WalGeometry, WalTransaction, DecodedWalTransaction,
}
use tulya_checkpoint_store.Wal.Geometry.{checked_total_len, transaction_digest}
use tulya_checkpoint_store.Wal.Validate.{validate_transaction}
use tulya_checkpoint_store.Wal.Codec.{
  wal_header, encode_nodes, encode_versions, seal, encoded_geometry, encode_transaction,
  decode_body, decode_transaction,
}
use tulya_checkpoint_store.Wal.Bodies.{map_err_inv}
use tulya_checkpoint_store.Wal.Seal.{
  seal_eq, header_prefix, wal_header_eq, length-header_prefix, GeometryFits, decode_header,
}
use tulya_checkpoint_store.Wal.Sections.{
  validate_transaction-Validated, decode_sections_found, same_geometry_refl, same_bytes_refl,
  checked_total_len_inv,
}

module _ ⦃sha : Sha256⦄ ⦃text : Utf8⦄ where
  -- What the encoder returns, taken apart.
  abbrev Encoded : WalGeometry → WalTransaction → List ℕ → Type 0
  Encoded base transaction bytes =
      (next : WalGeometry) × (table : List ℕ) × (checkpoint : List ℕ) × (total : ℕ)
      × (validate_transaction base transaction ≡ ok next)
      × (encode_versions transaction.versions ≡ ok table)
      × (encode_checkpoint transaction.checkpoint ≡ ok checkpoint)
      × (length checkpoint ≤ u32_max)
      × (checked_total_len (length transaction.payload) (length transaction.nodes)
            (length transaction.versions) (length checkpoint)
          ≡ ok total)
      × (total ≤ u32_max)
      × (let body =
            transaction.payload ++ (encode_nodes transaction.nodes ++ (table ++ checkpoint)) in
          let header =
            wal_header base total (length transaction.payload) (length transaction.nodes)
              (length transaction.versions) (length checkpoint) in
          (length (header ++ body) ≡ total) × (bytes ≡ seal (header ++ body)))

  encode_transaction-Encoded :
      (base : WalGeometry) (transaction : WalTransaction) {bytes : List ℕ}
      → encode_transaction base transaction ≡ ok bytes
      → Encoded base transaction bytes
  unfolding encode_transaction
  encode_transaction-Encoded base transaction h =
      let (next, h1, r1) = bind_inv {m = validate_transaction base transaction} h in
      let (checkpoint, h2, r2) =
        bind_inv {m = map_err publication_error (encode_checkpoint transaction.checkpoint)} r1 in
      let (h3, r3) = try_from_inv u64_max (length transaction.payload) _ _ r2 in
      let (h4, r4) = try_from_inv u64_max (length transaction.nodes) _ _ r3 in
      let (h5, r5) = try_from_inv u64_max (length transaction.versions) _ _ r4 in
      let (h6, r6) = try_from_inv u32_max (length checkpoint) _ _ r5 in
      let (total, h7, r7) =
        bind_inv
          {m = checked_total_len (length transaction.payload) (length transaction.nodes)
            (length transaction.versions) (length checkpoint)}
          r6 in
      let (h8, r8) = try_from_inv u32_max total _ _ r7 in
      let (table, h9, r9) = bind_inv {m = encode_versions transaction.versions} r8 in
      let (h10, r10) = then_inv _ r9 in
      let (g, h11, r11) =
        bind_inv
          {m = encoded_geometry base (length transaction.payload) (length transaction.nodes)
            (length transaction.versions)}
          r10 in
      (
        next,
        table,
        checkpoint,
        total,
        h1,
        h9,
        map_err_inv publication_error _ h2,
        h6,
        h7,
        h8,
        ((==_iff _ total).0 (true_of_not (reject_inv _ _ h10)), ok_of_then _ r11),
      )

  -- The body of an encoded transaction, behind its header and its digest.
  decode_body_found :
      (front digest body : List ℕ) (base next : WalGeometry) (transaction : WalTransaction)
      (table checkpoint : List ℕ) (total : ℕ)
      → validate_transaction base transaction ≡ ok next
      → encode_versions transaction.versions ≡ ok table
      → encode_checkpoint transaction.checkpoint ≡ ok checkpoint
      → checked_total_len
          (length transaction.payload)
          (length transaction.nodes)
          (length transaction.versions)
          (length checkpoint)
        ≡ ok total
      → total ≤ u32_max
      → length front ≡ 88
      → digest ≡ transaction_digest front body
      → body ≡ transaction.payload ++ (encode_nodes transaction.nodes ++ (table ++ checkpoint))
      → 120 + length body ≡ total
      → decode_body
          (front ++ (digest ++ body))
          base
          (length transaction.payload)
          (length transaction.nodes)
          (length transaction.versions)
          (length checkpoint)
        ≡ ok (record { transaction = transaction; next_geometry = next; digest = digest })
  unfolding decode_body transaction_digest
  decode_body_found front digest body base next transaction table checkpoint total valid tabled
        pointed measured small at sealed is size =
      let bytes = front ++ (digest ++ body) in
      let d : length digest ≡ 32 = ap length sealed ∙ sha.length-digest _ in
      let total_eq : length bytes ≡ total = omega (
        arith,
        at,
        d,
        size,
        length-append {0} front (digest ++ body),
        length-append {0} digest body,
      ) in
      let (advances, nodes, versions, point) =
        validate_transaction-Validated base transaction next valid in
      let (point_bytes, encodes, decodes) = point in
      let same : point_bytes ≡ checkpoint = cc (encodes, pointed) in
      let whole : bytes ≡ (front ++ digest) ++ body = sym (append_assoc front digest body) in
      let header : length (front ++ digest) ≡ 120 =
        omega (arith, at, d, length-append {0} front digest) in
      let start : take 88 bytes ≡ front = take_front front (digest ++ body) 88 at in
      let behind : drop 120 bytes ≡ body =
        ap (drop 120) whole ∙ drop_front (front ++ digest) body 120 header in
      let stored : get_or_err bytes 88 120 (invalid "v2 WAL digest is truncated") ≡ ok digest =
        get_or_err_found bytes 88 120 (invalid "v2 WAL digest is truncated")
          (slice_middle front digest body 88 120 at (omega (arith, at, d))) in
      let agrees : same_bytes digest (transaction_digest (take 88 bytes) (drop 120 bytes)) ≡ true =
        rw (start, behind) (ap (same_bytes digest) (sym sealed) ∙ same_bytes_refl digest) in
      let sections =
        decode_sections_found bytes (front ++ digest) base transaction table checkpoint
          next.version_count nodes versions tabled
          (ap (λ b. decode_checkpoint b next.version_count) (sym same) ∙ decodes) header
          (whole ∙ ap (λ b. (front ++ digest) ++ b) is) (omega (arith, total_eq)) in
      rw
        (
          stored,
          agrees,
          measured,
          (==_iff total (length bytes)).1 (sym total_eq),
          advances,
          sections,
          valid,
          same_geometry_refl next,
        )
        refl

  -- A transaction that is encoded against a base, whose fields are 64-bit, is decoded against that
  -- base as itself, with the geometry that its validation computed.
  pub decode_transaction-encode_transaction :
      (base : WalGeometry) (transaction : WalTransaction) {bytes : List ℕ}
      → GeometryFits base
      → encode_transaction base transaction ≡ ok bytes
      → (decoded : DecodedWalTransaction) × (decode_transaction bytes base ≡ ok decoded)
        × (decoded.transaction ≡ transaction)
        × (validate_transaction base transaction ≡ ok decoded.next_geometry)
  decode_transaction-encode_transaction base transaction {bytes} fits h =
      let (next, table, checkpoint, total, valid, tabled, pointed, narrow, measured, small, shape) =
        encode_transaction-Encoded base transaction h in
      let (size, out) = shape in
      let pl = length transaction.payload in
      let nc = length transaction.nodes in
      let vc = length transaction.versions in
      let cl = length checkpoint in
      let body = transaction.payload ++ (encode_nodes transaction.nodes ++ (table ++ checkpoint)) in
      let front = header_prefix base total pl nc vc cl in
      let digest = transaction_digest front body in
      let at : length front ≡ 88 = length-header_prefix base total pl nc vc cl in
      let d : length digest ≡ 32 = unfold transaction_digest in sha.length-digest _ in
      let headed = wal_header_eq base total pl nc vc cl in
      let sized : 120 + length body ≡ total = omega (
        arith,
        size,
        length-append {0} (wal_header base total pl nc vc cl) body,
        ap length headed,
        at,
        length-append {0} front (replicate {0} 32 0),
      ) in
      let is : bytes ≡ front ++ (digest ++ body) =
        out ∙ ap (λ l. seal (l ++ body)) headed ∙ seal_eq front (replicate 32 0) body at refl in
      let (p_fits, n_fits, v_fits) = checked_total_len_inv pl nc vc cl measured in
      (
        record { transaction = transaction; next_geometry = next; digest = digest },
        ap (λ b. decode_transaction b base) is
            ∙ decode_header base total pl nc vc cl (digest ++ body) fits small p_fits n_fits v_fits
                narrow (omega (arith, sized, d, length-append {0} digest body))
                (omega (arith, d, length-append {0} digest body))
            ∙ decode_body_found front digest body base next transaction table checkpoint total valid
                tabled pointed measured small at refl refl sized,
        refl,
        valid,
      )

  -- An encoded transaction begins with its header, which holds the base.
  pub encode_transaction-Headed :
      (base : WalGeometry) (transaction : WalTransaction) {bytes : List ℕ}
      → encode_transaction base transaction ≡ ok bytes
      → (total : ℕ) × (checkpoint_len : ℕ) × (tail : List ℕ) × (bytes
          ≡ header_prefix base total
              (length transaction.payload)
              (length transaction.nodes)
              (length transaction.versions)
              checkpoint_len
            ++ tail)
  encode_transaction-Headed base transaction h =
      let (next, table, checkpoint, total, valid, tabled, pointed, narrow, measured, small, shape) =
        encode_transaction-Encoded base transaction h in
      let (size, out) = shape in
      let pl = length transaction.payload in
      let nc = length transaction.nodes in
      let vc = length transaction.versions in
      let cl = length checkpoint in
      let body = transaction.payload ++ (encode_nodes transaction.nodes ++ (table ++ checkpoint)) in
      (
        total,
        cl,
        transaction_digest (header_prefix base total pl nc vc cl) body ++ body,
        out
            ∙ ap (λ l. seal (l ++ body)) (wal_header_eq base total pl nc vc cl)
            ∙ seal_eq (header_prefix base total pl nc vc cl) (replicate 32 0) body
                (length-header_prefix base total pl nc vc cl) refl,
      )
