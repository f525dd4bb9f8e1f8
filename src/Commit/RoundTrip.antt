-- ===== src/Commit/RoundTrip.antt =====
-- A commit that is encoded is decoded as itself.
use tulya_checkpoint_store.Prelude.{
  ℕ, ◌+◌, ◌≤◌, ◌≡◌, ◌∙◌, refl, ap, sym, List, ◌++◌, Option, arith, length, length-append,
  append_assoc, replicate, ok, map_err, bind_inv, then_inv, try_from_inv, checked_add_inv,
  ok_of_then, u32_max, u64_max,
}
use tulya_checkpoint_store.Format.Records.{Sha256}
use tulya_checkpoint_store.Publication.Records.{Utf8}
use tulya_checkpoint_store.Wal.Records.{WalGeometry, WalTransaction}
use tulya_checkpoint_store.Wal.Validate.{validate_transaction}
use tulya_checkpoint_store.Wal.Codec.{encode_transaction}
use tulya_checkpoint_store.Wal.Bodies.{map_err_inv}
use tulya_checkpoint_store.Wal.Seal.{GeometryFits}
use tulya_checkpoint_store.Wal.RoundTrip.{
  decode_transaction-encode_transaction, encode_transaction-Headed,
}
use tulya_checkpoint_store.Commit.Records.{
  wal_error, DecodedCommit, validate_request_id, digest_of_commit,
}
use tulya_checkpoint_store.Commit.Codec.{
  request_bytes, commit_header, request_operation_digest, seal_commit, encode_commit,
  decode_inner_wal_base, decode_commit,
}
use tulya_checkpoint_store.Commit.Parts.{
  decode_inner_wal_base-header_prefix, commit_front, length-commit_front, commit_header_eq,
  seal_commit_eq, decode_commit_header,
}
use tulya_checkpoint_store.Commit.Pieces.{length-request_operation_digest, request_fits}
use tulya_checkpoint_store.Commit.Sections.{
  decode_commit_sections_found, decode_commit_digests_found,
}

module _ ⦃sha : Sha256⦄ where
  module _ ⦃text : Utf8⦄ where
    -- What the encoder returns, taken apart.
    abbrev EncodedCommit : WalGeometry → WalTransaction → Option (List ℕ) → List ℕ → Type 0
    EncodedCommit base transaction request bytes =
        (wal : List ℕ) × (operation : List ℕ) × (validate_request_id request ≡ ok tt)
        × (encode_transaction base transaction ≡ ok wal)
        × (request_operation_digest request transaction.checkpoint ≡ ok operation)
        × (length wal ≤ u32_max)
        × (88 + length wal + length (request_bytes request) ≤ u32_max)
        × (bytes
            ≡ seal_commit (
                commit_header (88 + length wal + length (request_bytes request)) (length wal)
                  (length (request_bytes request)) operation
                ++ (wal ++ request_bytes request)))

    encode_commit-EncodedCommit :
        (base : WalGeometry) (transaction : WalTransaction) (request : Option (List ℕ))
        {bytes : List ℕ}
        → encode_commit base transaction request ≡ ok bytes
        → EncodedCommit base transaction request bytes
    unfolding encode_commit
    encode_commit-EncodedCommit base transaction request h =
        let (h1, r1) = then_inv (validate_request_id request) h in
        let (wal, h2, r2) =
          bind_inv {m = map_err wal_error (encode_transaction base transaction)} r1 in
        let (operation, h3, r3) =
          bind_inv {m = request_operation_digest request transaction.checkpoint} r2 in
        let (h4, r4) = try_from_inv u32_max (length (request_bytes request)) _ _ r3 in
        let (h5, r5) = try_from_inv u32_max (length wal) _ _ r4 in
        let (h6, r6) = checked_add_inv u64_max 88 (length wal) _ _ r5 in
        let (h7, r7) =
          checked_add_inv u64_max (88 + length wal) (length (request_bytes request)) _ _ r6 in
        let (h8, r8) =
          try_from_inv u32_max (88 + length wal + length (request_bytes request)) _ _ r7 in
        (wal, operation, h1, map_err_inv wal_error _ h2, h3, h5, h8, ok_of_then _ r8)

    -- A commit that is encoded against a base of 64-bit fields, with a request or without, is decoded
    -- as that base, the transaction with the geometry that its validation computed, the request and
    -- the digest of the operation, which is zero without a request.
    pub decode_commit-encode_commit :
        (base : WalGeometry) (transaction : WalTransaction) (request : Option (List ℕ))
        {bytes : List ℕ}
        → GeometryFits base
        → encode_commit base transaction request ≡ ok bytes
        → (decoded : DecodedCommit) × (decode_commit bytes ≡ ok decoded)
          × (decoded.encoded_base ≡ base)
          × (decoded.wal.transaction ≡ transaction)
          × (validate_transaction base transaction ≡ ok decoded.wal.next_geometry)
          × (decoded.request_id ≡ request)
          × (request_operation_digest request transaction.checkpoint ≡ ok decoded.operation_digest)
    decode_commit-encode_commit base transaction request {bytes} fits h =
        let (wal, operation, valid, encodes, digests, narrow, small, out) =
          encode_commit-EncodedCommit base transaction request h in
        let (decoded, decodes, same, next) =
          decode_transaction-encode_transaction base transaction fits encodes in
        let (total, cl, tail, headed) = encode_transaction-Headed base transaction encodes in
        let inner : decode_inner_wal_base wal ≡ ok base =
          ap decode_inner_wal_base headed
          ∙ decode_inner_wal_base-header_prefix base total _ _ _ cl tail fits in
        let part = request_bytes request in
        let n = 88 + length wal + length part in
        let front = commit_front n (length wal) (length part) in
        let at : length front ≡ 24 = length-commit_front n (length wal) (length part) in
        let wide : length operation ≡ 32 =
          length-request_operation_digest request transaction.checkpoint digests in
        let at56 : length (front ++ operation) ≡ 56 =
          omega (arith, at, wide, length-append {0} front operation) in
        let body = wal ++ part in
        let stored = digest_of_commit (front ++ operation) body in
        let d : length stored ≡ 32 = unfold digest_of_commit in sha.length-digest _ in
        let is : bytes ≡ front ++ (operation ++ (stored ++ body)) =
          out
          ∙ ap (λ l. seal_commit (l ++ body))
              (commit_header_eq n (length wal) (length part) operation wide)
          ∙ seal_commit_eq (front ++ operation) (replicate 32 0) body at56 refl
          ∙ append_assoc front operation (stored ++ body) in
        let rest : length (operation ++ (stored ++ body)) ≡ 64 + length wal + length part = omega (
          arith,
          wide,
          d,
          length-append {0} operation (stored ++ body),
          length-append {0} stored body,
          length-append {0} wal part,
        ) in
        let is88 : front ++ (operation ++ (stored ++ body))
            ≡ ((front ++ operation) ++ stored) ++ body =
          sym (append_assoc front operation (stored ++ body))
          ∙ sym (append_assoc (front ++ operation) stored body) in
        (
          record {
            encoded_base = base;
            wal = decoded;
            request_id = request;
            operation_digest = operation;
            commit_digest = stored;
          },
          ap decode_commit is
              ∙ decode_commit_header n (length wal) (length part) (operation ++ (stored ++ body))
                  small narrow (request_fits request valid) (omega (arith, rest))
                  (omega (arith, rest))
              ∙ decode_commit_digests_found front operation stored body (length wal) (length part)
                  at wide refl
              ∙ decode_commit_sections_found (front ++ (operation ++ (stored ++ body)))
                  ((front ++ operation) ++ stored) wal operation stored base request decoded is88
                  (omega (arith, at56, d, length-append {0} (front ++ operation) stored))
                  (omega (arith, at, rest, length-append {0} front (operation ++ (stored ++ body))))
                  valid inner decodes
                  (ap (λ t. request_operation_digest request t.checkpoint) same ∙ digests),
          refl,
          same,
          next,
          refl,
          digests,
        )
