-- ===== src/Commit/Pieces.antt =====
-- The pieces of a commit, its header, transaction and request, read back from the encoder.
use tulya_checkpoint_store.Prelude.{
  ℕ, ◌≤◌, ◌≡◌, ◌∙◌, refl, ap, sym, List, [], ◌∷◌, Option, none, some, false, ◌&&◌, is_empty,
  if◌then◌else◌, arith, length, replicate, ne→==, ltb, lt→ltb, ◌==◌, Result, ok, map_err, bind_inv,
  then_inv,
}
use tulya_checkpoint_store.Format.Records.{Sha256}
use tulya_checkpoint_store.Publication.Records.{CheckpointRecord}
use tulya_checkpoint_store.Publication.Checkpoint.{parent_or_empty, validate_checkpoint_record}
use tulya_checkpoint_store.Wal.Sections.{same_bytes_refl}
use tulya_checkpoint_store.Commit.Records.{
  CommitError, publication_error, validate_request_id, len_prefixed, checkpoint_operation_digest,
}
use tulya_checkpoint_store.Commit.Codec.{
  request_bytes, request_operation_digest, check_operation_digest,
}

module _ ⦃sha : Sha256⦄ where
  length-checkpoint_operation_digest :
      (checkpoint : CheckpointRecord) {digest : List ℕ}
      → checkpoint_operation_digest checkpoint ≡ ok digest
      → length digest ≡ 32
  unfolding checkpoint_operation_digest
  length-checkpoint_operation_digest checkpoint h =
      let (u, r1) =
        then_inv (map_err publication_error (validate_checkpoint_record checkpoint)) h in
      let (thread, h2, r2) = bind_inv {m = len_prefixed checkpoint.thread_id} r1 in
      let (id, h3, r3) = bind_inv {m = len_prefixed checkpoint.checkpoint_id} r2 in
      let (parent, h4, r4) =
        bind_inv {m = len_prefixed (parent_or_empty checkpoint.parent_checkpoint_id)} r3 in
      length_ok _ _ (sha.length-digest _) r4
    where
      length_ok :
          (a b : List ℕ)
          → length a ≡ 32
          → ◌≡◌ {A = Result CommitError (List ℕ)} (ok a) (ok b)
          → length b ≡ 32
      length_ok a b e k = let same : a ≡ b = cc k in ap length (sym same) ∙ e

  pub length-request_operation_digest :
      (request : Option (List ℕ)) (checkpoint : CheckpointRecord) {digest : List ℕ}
      → request_operation_digest request checkpoint ≡ ok digest
      → length digest ≡ 32
  unfolding request_operation_digest
  length-request_operation_digest none checkpoint {digest} h =
      let zeros : replicate 32 0 ≡ digest = cc h in ap length (sym zeros)
  length-request_operation_digest (some r) checkpoint h =
      length-checkpoint_operation_digest checkpoint h

  -- The digest that the decoder asks for is the encoder's.
  pub checked_digest :
      (request : Option (List ℕ)) (checkpoint : CheckpointRecord) {digest : List ℕ}
      → validate_request_id request ≡ ok tt
      → request_operation_digest request checkpoint ≡ ok digest
      → check_operation_digest (length (request_bytes request)) digest checkpoint ≡ ok digest
  unfolding check_operation_digest request_operation_digest validate_request_id
  checked_digest none checkpoint v h = h
  checked_digest (some []) checkpoint v h = absurd (cc v)
  checked_digest (some (b ∷ r)) checkpoint {digest} v h =
      rw (ne→== (length (b ∷ r)) 0 (λ e. omega arith), h, same_bytes_refl digest) refl

pub request_fits :
    (request : Option (List ℕ))
    → validate_request_id request ≡ ok tt
    → length (request_bytes request) ≤ 4096
unfolding validate_request_id
request_fits none v = omega arith
request_fits (some []) v = omega arith
request_fits (some (b ∷ r)) v = ground arith

-- The request that is returned, and the two checks of its length.
pub request_back :
    (request : Option (List ℕ))
    → validate_request_id request ≡ ok tt
    → (if length (request_bytes request) == 0 then none else some (request_bytes request)) ≡ request
unfolding validate_request_id
request_back none v = refl
request_back (some []) v = absurd (cc v)
request_back (some (b ∷ r)) v = rw (ne→== (length (b ∷ r)) 0 (λ e. omega arith)) refl

pub request_not_empty :
    (request : Option (List ℕ))
    → (ltb 0 (length (request_bytes request)) && is_empty (request_bytes request)) ≡ false
request_not_empty none = refl
request_not_empty (some []) = refl
request_not_empty (some (b ∷ r)) = rw (lt→ltb 0 (length (b ∷ r)) (omega arith)) refl
