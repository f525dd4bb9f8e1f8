-- ===== src/Apply/Invariant.antt =====
-- The conditions on a committed state hold at the start, and a commit that is applied keeps them.
use mathlib.Core.Path.{subst}
use tulya_checkpoint_store.Prelude.{
  ℕ, ◌≡◌, ◌≢◌, ◌∙◌, refl, ap, sym, List, [], ◌∷◌, Option, none, some, false, ◌⊎◌, inl, inr, length,
  get_elem?-append_left, get_elem?-append_self, ok, reject, then_inv, reject_inv,
}
use tulya_checkpoint_store.Format.Records.{Sha256}
use tulya_checkpoint_store.Format.Codec.{same_bytes}
use tulya_checkpoint_store.Commit.Records.{DecodedCommit, checkpoint_operation_digest}
use tulya_checkpoint_store.Apply.Maps.{
  lookup, insert, contains, is_some, lookup-insert_same, lookup-insert_other,
}
use tulya_checkpoint_store.Apply.State.{RequestRecord, same_key, CommittedState, default_state}
use tulya_checkpoint_store.Apply.Validate.{
  key_of, validate_parent, validate_nodes, validate_versions, validate_checkpoint,
  validate_against_committed_state,
}
use tulya_checkpoint_store.Apply.Commits.{record_request, commit_state}
use tulya_checkpoint_store.Apply.Outcomes.{same_bytes-Decides}
use tulya_checkpoint_store.Apply.Conditions.{IsActive, IsConsistent, not_some, bytes_cases}

module _ ⦃sha : Sha256⦄ where
  -- The empty state is consistent.
  pub default_state-IsConsistent : IsConsistent default_state
  default_state-IsConsistent = (
    ((λ key i h. absurd (cc h)), (λ i checkpoint h. absurd (cc h))),
    (λ request found h. absurd (cc h)),
    (λ i checkpoint h. absurd (cc h)),
  )

  key_checks :
      (state : CommittedState) (decoded : DecodedCommit)
      → validate_checkpoint state decoded.encoded_base decoded.wal.transaction
          decoded.wal.transaction.checkpoint
        ≡ ok tt
      → (lookup same_key (key_of decoded.wal.transaction.checkpoint) state.checkpoint_ordinals
          ≡ none)
        × (contains same_key (key_of decoded.wal.transaction.checkpoint) state.deleted_checkpoints
            ≡ false)
        × (validate_parent state decoded.wal.transaction.checkpoint.thread_id
              decoded.wal.transaction.checkpoint.parent_checkpoint_id
            ≡ ok tt)
  unfolding validate_checkpoint
  key_checks state decoded k =
      let (k1, r1) =
        then_inv
          (reject
            (is_some (
              lookup same_key (key_of decoded.wal.transaction.checkpoint)
                state.checkpoint_ordinals))
            _)
          k in
      let (k2, r2) =
        then_inv
          (reject
            (contains same_key (key_of decoded.wal.transaction.checkpoint)
              state.deleted_checkpoints)
            _)
          r1 in
      let (k3, r3) =
        then_inv
          (validate_parent state decoded.wal.transaction.checkpoint.thread_id
            decoded.wal.transaction.checkpoint.parent_checkpoint_id)
          r2 in
      (not_some _ (reject_inv _ _ k1), reject_inv _ _ k2, k3)

  -- A checkpoint that is accepted has a key that is neither committed nor deleted,
  -- and its parent is committed.
  pub accepted_key :
      (state : CommittedState) (decoded : DecodedCommit)
      → validate_against_committed_state state decoded ≡ ok tt
      → (lookup same_key (key_of decoded.wal.transaction.checkpoint) state.checkpoint_ordinals
          ≡ none)
        × (contains same_key (key_of decoded.wal.transaction.checkpoint) state.deleted_checkpoints
            ≡ false)
        × (validate_parent state decoded.wal.transaction.checkpoint.thread_id
              decoded.wal.transaction.checkpoint.parent_checkpoint_id
            ≡ ok tt)
  unfolding validate_against_committed_state
  accepted_key state decoded h =
      let transaction = decoded.wal.transaction in
      let (h1, r1) =
        then_inv (validate_nodes state decoded.encoded_base transaction 0 transaction.nodes) h in
      let (h2, r2) =
        then_inv (validate_versions state decoded.encoded_base transaction transaction.versions)
          r1 in
      key_checks state decoded r2

  -- The requests of a state with one more checkpoint.
  old_request :
      (state : CommittedState) (decoded : DecodedCommit) (ordinal : ℕ) (request : List ℕ)
      (found : RequestRecord)
      → IsActive state request found
      → IsActive (commit_state state decoded ordinal) request found
  unfolding commit_state
  old_request state decoded ordinal request found (free, (checkpoint, at, digest)) = (
    free,
    (
      checkpoint,
      get_elem?-append_left state.checkpoints (decoded.wal.transaction.checkpoint ∷ [])
          found.checkpoint_ordinal at,
      digest,
    ),
  )

  new_request :
      (state : CommittedState) (decoded : DecodedCommit) (request : List ℕ)
      → lookup same_bytes request state.retired_requests ≡ none
      → checkpoint_operation_digest decoded.wal.transaction.checkpoint ≡ ok decoded.operation_digest
      → IsActive (commit_state state decoded (length state.checkpoints)) request (record {
        operation_digest = decoded.operation_digest;
        checkpoint_ordinal = length state.checkpoints;
      })
  unfolding commit_state
  new_request state decoded request free digest = (
    free,
    (
      decoded.wal.transaction.checkpoint,
      get_elem?-append_self state.checkpoints decoded.wal.transaction.checkpoint [],
      digest,
    ),
  )

  pub recorded_requests :
      (state : CommittedState) (decoded : DecodedCommit) (named : Option (List ℕ))
      → ((request : List ℕ)
          → named ≡ some request
          → (lookup same_bytes request state.retired_requests ≡ none)
            × (checkpoint_operation_digest decoded.wal.transaction.checkpoint
                ≡ ok decoded.operation_digest))
      → ((request : List ℕ) (found : RequestRecord)
          → lookup same_bytes request state.request_records ≡ some found
          → IsActive state request found)
      → (request : List ℕ) (found : RequestRecord)
      → lookup same_bytes request (
          record_request named decoded.operation_digest
            (length state.checkpoints)
            state.request_records)
        ≡ some found
      → IsActive (commit_state state decoded (length state.checkpoints)) request found
  unfolding record_request
  recorded_requests state decoded none fresh old request found h =
      old_request state decoded (length state.checkpoints) request found (old request found h)
  recorded_requests state decoded (some name) fresh old request found h =
      go (bytes_cases request name)
    where
      entry : RequestRecord
      entry = record {
        operation_digest = decoded.operation_digest;
        checkpoint_ordinal = length state.checkpoints;
      }

      go :
          (request ≡ name) ⊎ (request ≢ name)
          → IsActive (commit_state state decoded (length state.checkpoints)) request found
      go (inl e) =
          let (free, digest) = fresh name refl in
          let here =
            lookup-insert_same same_bytes same_bytes-Decides name entry state.request_records in
          let moved =
            ap (λ k. lookup same_bytes k (insert same_bytes name entry state.request_records))
              (sym e)
            ∙ h in
          let is : found ≡ entry = cc (here, moved) in
          subst (λ f. IsActive (commit_state state decoded (length state.checkpoints)) request f)
            (sym is)
            (subst (λ r. IsActive (commit_state state decoded (length state.checkpoints)) r entry)
              (sym e) (new_request state decoded name free digest))
      go (inr ne) = old_request state decoded (length state.checkpoints) request found (
          old request found (
            sym (
              lookup-insert_other same_bytes same_bytes-Decides request name entry
                state.request_records ne)
            ∙ h))
