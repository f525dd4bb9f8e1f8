-- ===== src/Commit/Contents.antt =====
-- What a commit that decodes contains: a valid transaction against its base, and the digest of its
-- operation where it has a request.
use mathlib.Core.Path.{subst}
use tulya_checkpoint_store.Prelude.{
  ℕ, ◌+◌, ◌≡◌, ◌∙◌, ap, sym, List, none, some, Bool, true, false, not, ◌==◌, if◌then◌else◌, Result,
  ok, ◌>>=◌, ◌>>◌, bind_inv, then_inv, checked_add_inv, ok_of_then, u64_max, map_err, replicate,
  reject,
}
use tulya_checkpoint_store.Format.Records.{Sha256}
use tulya_checkpoint_store.Format.Reads.{get_or_err}
use tulya_checkpoint_store.Publication.Records.{Utf8, CheckpointRecord}
use tulya_checkpoint_store.Wal.Records.{WalGeometry, DecodedWalTransaction}
use tulya_checkpoint_store.Wal.Geometry.{
  checked_total_len, next_geometry_from_counts, read_u32, read_u64,
}
use tulya_checkpoint_store.Wal.Validate.{validate_transaction}
use tulya_checkpoint_store.Wal.Codec.{decode_sections, decode_body, decode_transaction}
use tulya_checkpoint_store.Wal.Bodies.{map_err_inv}
use tulya_checkpoint_store.Commit.Records.{
  CommitError, wal_error, invalid, DecodedCommit, checkpoint_operation_digest,
}
use tulya_checkpoint_store.Format.Codec.{same_bytes}
use tulya_checkpoint_store.Commit.Fields.{decode_commit-Headed}
use tulya_checkpoint_store.Commit.Codec.{
  decode_inner_wal_base, check_operation_digest, decode_commit_sections, decode_commit_digests,
  decode_commit,
}

module _ ⦃sha : Sha256⦄ ⦃text : Utf8⦄ where
  body_valid :
      (bytes : List ℕ) (base : WalGeometry)
      (payload_len node_count version_count checkpoint_len : ℕ) {decoded : DecodedWalTransaction}
      → decode_body bytes base payload_len node_count version_count checkpoint_len ≡ ok decoded
      → validate_transaction base decoded.transaction ≡ ok decoded.next_geometry
  unfolding decode_body
  body_valid bytes base payload_len node_count version_count checkpoint_len {decoded} h =
      let (stored, u1, h1) = bind_inv {m = get_or_err bytes 88 120 _} h in
      let (u2, h2) = then_inv _ h1 in
      let (expected, u3, h3) =
        bind_inv {m = checked_total_len payload_len node_count version_count checkpoint_len} h2 in
      let (u4, h4) = then_inv _ h3 in
      let (next, u5, h5) =
        bind_inv {m = next_geometry_from_counts base payload_len node_count version_count} h4 in
      let (transaction, u6, h6) =
        bind_inv
          {m = decode_sections bytes base payload_len node_count version_count checkpoint_len
            next.version_count}
          h5 in
      let (geometry, u7, h7) = bind_inv {m = validate_transaction base transaction} h6 in
      let same = ok_of_then _ h7 in
      ap (λ d. validate_transaction base d.transaction) same
      ∙ u7
      ∙ ap (λ d. ok d.next_geometry) (sym same)

  -- A transaction that decodes is valid against its base, with the geometry that it is returned with.
  pub decode_transaction-Valid :
      (bytes : List ℕ) (base : WalGeometry) {decoded : DecodedWalTransaction}
      → decode_transaction bytes base ≡ ok decoded
      → validate_transaction base decoded.transaction ≡ ok decoded.next_geometry
  unfolding decode_transaction
  decode_transaction-Valid bytes base h =
      let (u1, h1) = then_inv _ h in
      let (u2, h2) = then_inv _ h1 in
      let (total, u3, h3) = bind_inv {m = read_u32 bytes 4 _} h2 in
      let (u4, h4) = then_inv _ h3 in
      let (schema, u5, h5) = bind_inv {m = read_u32 bytes 8 _} h4 in
      let (u6, h6) = then_inv _ h5 in
      let (flags, u7, h7) = bind_inv {m = read_u32 bytes 12 _} h6 in
      let (u8, h8) = then_inv _ h7 in
      let (payload_start, u9, h9) = bind_inv {m = read_u64 bytes 16 _} h8 in
      let (payload_len, u10, h10) = bind_inv {m = read_u64 bytes 24 _} h9 in
      let (node_start, u11, h11) = bind_inv {m = read_u64 bytes 32 _} h10 in
      let (node_count, u12, h12) = bind_inv {m = read_u64 bytes 40 _} h11 in
      let (version_start, u13, h13) = bind_inv {m = read_u64 bytes 48 _} h12 in
      let (version_count, u14, h14) = bind_inv {m = read_u64 bytes 56 _} h13 in
      let (checkpoint_start, u15, h15) = bind_inv {m = read_u64 bytes 64 _} h14 in
      let (checkpoint_len, u16, h16) = bind_inv {m = read_u32 bytes 72 _} h15 in
      let (node_width, u17, h17) = bind_inv {m = read_u32 bytes 76 _} h16 in
      let (u18, h18) = then_inv _ h17 in
      let (version_width, u19, h19) = bind_inv {m = read_u32 bytes 80 _} h18 in
      let (u20, h20) = then_inv _ h19 in
      let (reserved, u21, h21) = bind_inv {m = read_u32 bytes 84 _} h20 in
      let (u22, h22) = then_inv _ h21 in
      let (u23, h23) = then_inv _ h22 in
      body_valid bytes base payload_len node_count version_count checkpoint_len h23

  -- What the sections of a commit decode to.
  abbrev pub Contents : DecodedCommit → Type 0
  Contents decoded =
      (validate_transaction decoded.encoded_base decoded.wal.transaction
        ≡ ok decoded.wal.next_geometry)
      × ((request : List ℕ)
          → decoded.request_id ≡ some request
          → checkpoint_operation_digest decoded.wal.transaction.checkpoint
            ≡ ok decoded.operation_digest)

  operation_of :
      (request_len : ℕ) (stored digest part : List ℕ) (checkpoint : CheckpointRecord)
      → check_operation_digest request_len stored checkpoint ≡ ok digest
      → (request : List ℕ) → (if request_len == 0 then none else some part) ≡ some request
      → checkpoint_operation_digest checkpoint ≡ ok digest
  unfolding check_operation_digest
  operation_of request_len stored digest part checkpoint h request e = go (request_len == 0) h e
    where
      go :
          (t : Bool)
          → (if t then ok (replicate 32 0) else (do
            expected ← checkpoint_operation_digest checkpoint
            reject
                (not (same_bytes stored expected))
                (invalid "v2 commit operation digest disagrees with checkpoint semantics")
            ok expected))
            ≡ ok digest
          → (if t then none else some part) ≡ some request
          → checkpoint_operation_digest checkpoint ≡ ok digest
      go true k f = absurd (cc f)
      go false k f =
          let (expected, found, k1) = bind_inv {m = checkpoint_operation_digest checkpoint} k in
          found ∙ ap ok (sym (ok_of_then _ k1))

  sections-Contents :
      (bytes : List ℕ) (wal_len request_len : ℕ) (operation stored : List ℕ)
      {decoded : DecodedCommit}
      → decode_commit_sections bytes wal_len request_len operation stored ≡ ok decoded
      → Contents decoded
  unfolding decode_commit_sections
  sections-Contents bytes wal_len request_len operation stored {decoded} h =
      let (s1, h1) = checked_add_inv u64_max 88 wal_len _ _ h in
      let (s2, h2) = checked_add_inv u64_max (88 + wal_len) request_len _ _ h1 in
      let (u3, h3) = then_inv _ h2 in
      let (wal, u4, h4) = bind_inv {m = get_or_err bytes 88 (88 + wal_len) _} h3 in
      let (request, u5, h5) =
        bind_inv {m = get_or_err bytes (88 + wal_len) (88 + wal_len + request_len) _} h4 in
      let (u6, h6) = then_inv _ h5 in
      let (u7, h7) = then_inv _ h6 in
      let (base, u8, h8) = bind_inv {m = decode_inner_wal_base wal} h7 in
      let (inner, u9, h9) = bind_inv {m = map_err wal_error (decode_transaction wal base)} h8 in
      let (digest, u10, h10) =
        bind_inv {m = check_operation_digest request_len operation inner.transaction.checkpoint}
          h9 in
      let valid = decode_transaction-Valid wal base (map_err_inv wal_error _ u9) in
      moved _
        (
          valid,
          λ r e.
              operation_of request_len operation digest request inner.transaction.checkpoint u10 r
                e,
        )
        h10
    where
      moved :
          (a : DecodedCommit) {b : DecodedCommit}
          → Contents a
          → ◌≡◌ {A = Result CommitError DecodedCommit} (ok a) (ok b)
          → Contents b
      moved a {b} c k = let same : a ≡ b = cc k in subst Contents same c

  pub decode_commit-Contents :
      (bytes : List ℕ) {decoded : DecodedCommit}
      → decode_commit bytes ≡ ok decoded
      → Contents decoded
  unfolding decode_commit_digests
  decode_commit-Contents bytes h =
      let (long, magic, field, sections) = decode_commit-Headed bytes h in
      let (wal_len, request_len, k) = sections in
      let (operation, u1, h1) = bind_inv {m = get_or_err bytes 24 56 _} k in
      let (stored, u2, h2) = bind_inv {m = get_or_err bytes 56 88 _} h1 in
      let (u3, h3) = then_inv _ h2 in
      sections-Contents bytes wal_len request_len operation stored h3
