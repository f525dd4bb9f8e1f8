-- ===== src/Commit/Sections.antt =====
-- The sections and the digests of a commit, read from bytes that hold them.
use tulya_checkpoint_store.Prelude.{
  ℕ, ◌+◌, ◌≤◌, ◌≡◌, ◌∙◌, refl, ap, sym, List, [], ◌∷◌, ◌++◌, Option, none, some, true, false, not,
  ◌&&◌, arith, length, length-append, append_assoc, take, drop, slice, replicate, take_front,
  drop_front, ==_iff, ne→==, ◌==◌, le→leb, ok, u64_max,
}
use tulya_checkpoint_store.Format.Records.{Sha256}
use tulya_checkpoint_store.Format.Codec.{same_bytes}
use tulya_checkpoint_store.Format.Reads.{get_or_err_found, slice_middle, slice_tail}
use tulya_checkpoint_store.Publication.Records.{Utf8, CheckpointRecord}
use tulya_checkpoint_store.Wal.Records.{WalGeometry, DecodedWalTransaction}
use tulya_checkpoint_store.Wal.Codec.{decode_transaction}
use tulya_checkpoint_store.Wal.Bodies.{get_part}
use tulya_checkpoint_store.Wal.Sections.{same_bytes_refl}
use tulya_checkpoint_store.Commit.Records.{invalid, validate_request_id, digest_of_commit}
use tulya_checkpoint_store.Commit.Codec.{
  request_bytes, request_operation_digest, decode_inner_wal_base, decode_commit_sections,
  decode_commit_digests,
}
use tulya_checkpoint_store.Commit.Pieces.{checked_digest, request_back, request_not_empty}

module _ ⦃sha : Sha256⦄ where
  requestless_zero :
      (request : Option (List ℕ)) (checkpoint : CheckpointRecord) {digest : List ℕ}
      → validate_request_id request ≡ ok tt
      → request_operation_digest request checkpoint ≡ ok digest
      → ((length (request_bytes request) == 0) && not (same_bytes digest (replicate 32 0))) ≡ false
  unfolding request_operation_digest validate_request_id
  requestless_zero none checkpoint {digest} v h =
      let zeros : replicate 32 0 ≡ digest = cc h in rw (sym zeros) refl
  requestless_zero (some []) checkpoint v h = absurd (cc v)
  requestless_zero (some (b ∷ r)) checkpoint v h =
      rw (ne→== (length (b ∷ r)) 0 (λ e. omega arith)) refl

  module _ ⦃text : Utf8⦄ where
    pub decode_commit_sections_found :
        (bytes front wal digest stored : List ℕ) (base : WalGeometry) (request : Option (List ℕ))
        (decoded : DecodedWalTransaction)
        → bytes ≡ front ++ (wal ++ request_bytes request)
        → length front ≡ 88
        → length bytes ≤ u64_max
        → validate_request_id request ≡ ok tt
        → decode_inner_wal_base wal ≡ ok base
        → decode_transaction wal base ≡ ok decoded
        → request_operation_digest request decoded.transaction.checkpoint ≡ ok digest
        → decode_commit_sections bytes (length wal) (length (request_bytes request)) digest stored
          ≡ ok (record {
            encoded_base = base;
            wal = decoded;
            request_id = request;
            operation_digest = digest;
            commit_digest = stored;
          })
    unfolding decode_commit_sections
    decode_commit_sections_found bytes front wal digest stored base request decoded is at small
          valid inner outer operation =
        let part = request_bytes request in
        let total : length bytes ≡ 88 + length wal + length part = omega (
          arith,
          ap length is,
          at,
          length-append {0} front (wal ++ part),
          length-append {0} wal part,
        ) in
        rw
          (
            le→leb (88 + length wal) u64_max (omega (arith, total)),
            le→leb (88 + length wal + length part) u64_max (omega (arith, total)),
            (==_iff (88 + length wal + length part) (length bytes)).1 (sym total),
            get_part bytes front wal part 88 (length wal)
                (invalid "v2 commit WAL bytes are truncated") is at refl,
            get_or_err_found bytes (88 + length wal) (88 + length wal + length part)
                (invalid "v2 commit request bytes are truncated")
                (ap (λ l. slice l (88 + length wal) (88 + length wal + length part))
                    (is ∙ sym (append_assoc front wal part))
                  ∙ slice_tail (front ++ wal) part (88 + length wal) (88 + length wal + length part)
                      (omega (arith, at, length-append {0} front wal))
                      (omega (arith, at, length-append {0} front wal))),
            requestless_zero request decoded.transaction.checkpoint valid operation,
            request_not_empty request,
            inner,
            outer,
            checked_digest request decoded.transaction.checkpoint valid operation,
            request_back request valid,
          )
          refl

    -- The digests behind the front of the header.
    pub decode_commit_digests_found :
        (front operation stored body : List ℕ) (wal_len request_len : ℕ)
        → length front ≡ 24
        → length operation ≡ 32
        → stored ≡ digest_of_commit (front ++ operation) body
        → decode_commit_digests (front ++ (operation ++ (stored ++ body))) wal_len request_len
          ≡ decode_commit_sections
              (front ++ (operation ++ (stored ++ body)))
              wal_len
              request_len
              operation
              stored
    unfolding decode_commit_digests digest_of_commit
    decode_commit_digests_found front operation stored body wal_len request_len at wide sealed =
        let bytes = front ++ (operation ++ (stored ++ body)) in
        let d : length stored ≡ 32 = ap length sealed ∙ sha.length-digest _ in
        let at56 : length (front ++ operation) ≡ 56 =
          omega (arith, at, wide, length-append {0} front operation) in
        let whole : bytes ≡ (front ++ operation) ++ (stored ++ body) =
          sym (append_assoc front operation (stored ++ body)) in
        let at88 : length ((front ++ operation) ++ stored) ≡ 88 =
          omega (arith, at56, d, length-append {0} (front ++ operation) stored) in
        let start : take 56 bytes ≡ front ++ operation =
          ap (take 56) whole ∙ take_front (front ++ operation) (stored ++ body) 56 at56 in
        let behind : drop 88 bytes ≡ body =
          ap (drop 88) (whole ∙ sym (append_assoc (front ++ operation) stored body))
          ∙ drop_front ((front ++ operation) ++ stored) body 88 at88 in
        let agrees : same_bytes stored (digest_of_commit (take 56 bytes) (drop 88 bytes)) ≡ true =
          rw (start, behind) (ap (same_bytes stored) (sym sealed) ∙ same_bytes_refl stored) in
        rw
          (
            get_or_err_found bytes 24 56 (invalid "v2 commit operation digest is truncated")
                (slice_middle front operation (stored ++ body) 24 56 at (omega (arith, at, wide))),
            get_or_err_found bytes 56 88 (invalid "v2 commit digest is truncated") (
                ap (λ l. slice l 56 88) whole
                ∙ slice_middle (front ++ operation) stored body 56 88 at56
                    (omega (arith, at56, d))),
            agrees,
          )
          refl
