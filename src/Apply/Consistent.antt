-- ===== src/Apply/Consistent.antt =====
-- A commit and a retirement keep a committed state consistent.
use mathlib.Core.Path.{subst}
use tulya_checkpoint_store.Prelude.{
  ℕ, ◌≡◌, ◌≢◌, ◌∙◌, ap, sym, List, none, some, false, ◌⊎◌, inl, inr, length, get_elem?,
  get_elem?-append_inv, ok, reject, bind_inv, then_inv,
}
use tulya_checkpoint_store.Format.Records.{Sha256}
use tulya_checkpoint_store.Format.Codec.{same_bytes}
use tulya_checkpoint_store.Publication.Records.{Utf8, CheckpointRecord}
use tulya_checkpoint_store.Commit.Records.{DecodedCommit, checkpoint_operation_digest}
use tulya_checkpoint_store.Commit.Codec.{decode_commit}
use tulya_checkpoint_store.Commit.Contents.{decode_commit-Contents}
use tulya_checkpoint_store.Apply.Maps.{
  lookup, remove, contains, is_some, lookup-insert_other, lookup-remove_same, lookup-remove_other,
}
use tulya_checkpoint_store.Apply.State.{
  new, RequestRecord, same_key, CommittedState, validate_request_id,
}
use tulya_checkpoint_store.Apply.Requests.{active_digest, retire_request}
use tulya_checkpoint_store.Apply.Validate.{key_of, validate_against_committed_state}
use tulya_checkpoint_store.Apply.Commits.{request_status, commit_state}
use tulya_checkpoint_store.Apply.Outcomes.{same_bytes-Decides}
use tulya_checkpoint_store.Apply.Replays.{classified_new, retire}
use tulya_checkpoint_store.Apply.Conditions.{IsActive, IsConsistent, bytes_cases, insert-IsIndex}
use tulya_checkpoint_store.Apply.Invariant.{accepted_key, recorded_requests}

module _ ⦃sha : Sha256⦄ where
  pub commit_state-IsConsistent :
      (state : CommittedState) (decoded : DecodedCommit)
      → IsConsistent state
      → ((request : List ℕ)
          → decoded.request_id ≡ some request
          → (lookup same_bytes request state.retired_requests ≡ none)
            × (checkpoint_operation_digest decoded.wal.transaction.checkpoint
                ≡ ok decoded.operation_digest))
      → validate_against_committed_state state decoded ≡ ok tt
      → IsConsistent (commit_state state decoded (length state.checkpoints))
  unfolding commit_state
  commit_state-IsConsistent state decoded (index, requests, live) fresh valid =
      let (key, kept, parent) = accepted_key state decoded valid in
      let last = decoded.wal.transaction.checkpoint in
      (
        insert-IsIndex state.checkpoint_ordinals state.checkpoints last index key,
        recorded_requests state decoded decoded.request_id fresh requests,
        λ i checkpoint h.
            go last kept i checkpoint (get_elem?-append_inv state.checkpoints last i h),
      )
    where
      go :
          (last : CheckpointRecord)
          → contains same_key (key_of last) state.deleted_checkpoints ≡ false
          → (i : ℕ) (checkpoint : CheckpointRecord)
          → (get_elem? state.checkpoints i ≡ some checkpoint)
            ⊎ ((i ≡ length state.checkpoints) × (checkpoint ≡ last))
          → contains same_key (key_of checkpoint) state.deleted_checkpoints ≡ false
      go last kept i checkpoint (inl e) = live i checkpoint e
      go last kept i checkpoint (inr (e, f)) =
          ap (λ c. contains same_key (key_of c) state.deleted_checkpoints) f ∙ kept

  module _ ⦃text : Utf8⦄ where
    pub new_facts :
        (state : CommittedState) (bytes : List ℕ) (decoded : DecodedCommit)
        → decode_commit bytes ≡ ok decoded
        → request_status state decoded.request_id decoded.operation_digest ≡ ok new
        → (request : List ℕ) → decoded.request_id ≡ some request
        → (lookup same_bytes request state.retired_requests ≡ none)
          × (checkpoint_operation_digest decoded.wal.transaction.checkpoint
              ≡ ok decoded.operation_digest)
    unfolding request_status
    new_facts state bytes decoded decodes fresh request named =
        let (valid, digest) = decode_commit-Contents bytes decodes in
        let classified =
          ap (λ r. request_status state r decoded.operation_digest) (sym named) ∙ fresh in
        let (ok_id, absent, free) =
          classified_new state request decoded.operation_digest classified in
        (free, digest request named)

  retire-IsConsistent :
      (state : CommittedState) (request digest : List ℕ)
      → IsConsistent state
      → IsConsistent (retire state request digest)
  retire-IsConsistent state request digest (index, requests, live) =
      (index, λ other found h. go other found h (bytes_cases other request), live)
    where
      go :
          (other : List ℕ) (found : RequestRecord)
          → lookup same_bytes other (remove same_bytes request state.request_records) ≡ some found
          → (other ≡ request) ⊎ (other ≢ request)
          → IsActive (retire state request digest) other found
      go other found h (inl e) =
          let gone =
            lookup-remove_same same_bytes same_bytes-Decides request state.request_records in
          let moved =
            ap (λ k. lookup same_bytes k (remove same_bytes request state.request_records)) (sym e)
            ∙ h in
          absurd (cc (gone, moved))
      go other found h (inr ne) =
          let (free, point) = requests other found (
            sym (
              lookup-remove_other same_bytes same_bytes-Decides other request state.request_records
                ne)
            ∙ h) in
          (
            lookup-insert_other same_bytes same_bytes-Decides other request digest
                  state.retired_requests ne
                ∙ free,
            point,
          )

  pub retire_request-IsConsistent :
      (state : CommittedState) (request : List ℕ) {state' : CommittedState}
      → IsConsistent state
      → retire_request state request ≡ ok state'
      → IsConsistent state'
  unfolding retire_request
  retire_request-IsConsistent state request {state'} formed h =
      let (valid, h1) = then_inv (validate_request_id request) h in
      let (free, h2) =
        then_inv (reject (is_some (lookup same_bytes request state.retired_requests)) _) h1 in
      let (digest, h3, h4) =
        bind_inv {m = active_digest (lookup same_bytes request state.request_records)} h2 in
      let is : retire state request digest ≡ state' = cc h4 in
      subst IsConsistent is (retire-IsConsistent state request digest formed)
