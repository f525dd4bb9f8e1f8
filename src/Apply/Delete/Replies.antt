-- ===== src/Apply/Delete/Replies.antt =====
-- What a deletion does to the answers to requests.
use mathlib.Core.Path.{subst}
use tulya_checkpoint_store.Prelude.{
  ℕ, arith, ◌≡◌, ◌∙◌, refl, ap, List, Option, none, some, true, ◌⊎◌, inl, inr, ◌==◌, get_elem?,
  get_elem?-lt, ok, then_inv,
}
use tulya_checkpoint_store.Format.Records.{Sha256}
use tulya_checkpoint_store.Format.Codec.{same_bytes}
use tulya_checkpoint_store.Publication.Records.{CheckpointRecord}
use tulya_checkpoint_store.Apply.Maps.{lookup}
use tulya_checkpoint_store.Apply.State.{
  RequestStatus, new, replay, retired, RequestRecord, same_key, CommittedState, validate_request_id,
}
use tulya_checkpoint_store.Apply.Requests.{classify_found, classify_request}
use tulya_checkpoint_store.Apply.Conditions.{WellFormed}
use tulya_checkpoint_store.Apply.Delete.Descent.{InSubtree, IsDecided}
use tulya_checkpoint_store.Apply.Delete.Ledgers.{
  PreparedSubtreeDelete, requests_none, prepare_delete_checkpoint_subtree,
  apply_prepared_delete_checkpoint_subtree,
}
use tulya_checkpoint_store.Apply.Delete.Remapping.{IsRemapped}
use tulya_checkpoint_store.Apply.Delete.Outcome.{Preparation, prepare_delete-Preparation}
use tulya_checkpoint_store.Apply.Delete.Preservation.{decided, moved, untouched, retained_request}
use tulya_checkpoint_store.Apply.Delete.Effect.{same_target}

-- What a status says of the two ledgers.
abbrev IsClassified : Option RequestRecord → Option (List ℕ) → List ℕ → RequestStatus → Type 0
IsClassified active digest operation_digest new = (active ≡ none) × (digest ≡ none)
IsClassified active digest operation_digest (replay ordinal) =
    (found : RequestRecord) × (active ≡ some found)
    × (same_bytes found.operation_digest operation_digest ≡ true)
    × (found.checkpoint_ordinal ≡ ordinal)
IsClassified active digest operation_digest retired =
    (active ≡ none)
    × (old : List ℕ) × (digest ≡ some old)
    × (same_bytes old operation_digest ≡ true)

classify_found_inv :
    (active : Option RequestRecord) (digest : Option (List ℕ)) (operation_digest : List ℕ)
    (status : RequestStatus)
    → classify_found active digest operation_digest ≡ ok status
    → IsClassified active digest operation_digest status
unfolding classify_found
classify_found_inv (some found) digest operation_digest new h = absurd (ground arith)
classify_found_inv (some found) digest operation_digest (replay ordinal) h =
    (found, refl, ground arith, ground arith)
classify_found_inv (some found) digest operation_digest retired h = absurd (ground arith)
classify_found_inv none (some old) operation_digest new h = absurd (ground arith)
classify_found_inv none (some old) operation_digest (replay ordinal) h = absurd (ground arith)
classify_found_inv none (some old) operation_digest retired h = (refl, old, refl, ground arith)
classify_found_inv none none operation_digest new h = (refl, refl)
classify_found_inv none none operation_digest (replay ordinal) h = absurd (cc h)
classify_found_inv none none operation_digest retired h = absurd (cc h)

-- The answer to a request behind a deletion: a new request is new, a retired one is retired, and one
-- that was answered by its checkpoint is retired when that is in the subtree, and answered by the new
-- ordinal of the same checkpoint otherwise.
abbrev pub Follows : CommittedState → ℕ → CommittedState → List ℕ → List ℕ → RequestStatus → Type 0
Follows before target after request digest new = classify_request after request digest ≡ ok new
Follows before target after request digest retired =
    classify_request after request digest ≡ ok retired
Follows before target after request digest (replay ordinal) =
    (InSubtree before.checkpoints target ordinal
      × (classify_request after request digest ≡ ok retired))
    ⊎ ((¬ InSubtree before.checkpoints target ordinal)
        × (m : ℕ) × (checkpoint : CheckpointRecord) × (classify_request after request digest
            ≡ ok (replay m))
        × (get_elem? before.checkpoints ordinal ≡ some checkpoint)
        × (get_elem? after.checkpoints m ≡ some checkpoint))

-- The answers from what the ledgers hold.
answer_retired :
    (state : CommittedState) (request digest old : List ℕ)
    → validate_request_id request ≡ ok tt
    → lookup same_bytes request state.request_records ≡ none
    → lookup same_bytes request state.retired_requests ≡ some old
    → same_bytes old digest ≡ true
    → classify_request state request digest ≡ ok retired
unfolding classify_request classify_found
answer_retired state request digest old valid absent there same =
    rw (valid, absent, there, same) refl

answer_replay :
    (state : CommittedState) (request digest : List ℕ) (found : RequestRecord)
    → validate_request_id request ≡ ok tt
    → lookup same_bytes request state.request_records ≡ some found
    → same_bytes found.operation_digest digest ≡ true
    → classify_request state request digest ≡ ok (replay found.checkpoint_ordinal)
unfolding classify_request classify_found
answer_replay state request digest found valid there same = rw (valid, there, same) refl

answer_new :
    (state : CommittedState) (request digest : List ℕ)
    → validate_request_id request ≡ ok tt
    → lookup same_bytes request state.request_records ≡ none
    → lookup same_bytes request state.retired_requests ≡ none
    → classify_request state request digest ≡ ok new
unfolding classify_request classify_found
answer_new state request digest valid absent free = rw (valid, absent, free) refl

module _ ⦃sha : Sha256⦄ (state : CommittedState) (formed : WellFormed state)
    {thread_id checkpoint_id : List ℕ} {prepared : PreparedSubtreeDelete}
    (p : Preparation state thread_id checkpoint_id prepared) where
  -- The state behind the deletion has the ledgers of the preparation.
  after : CommittedState
  after = apply_prepared_delete_checkpoint_subtree state prepared

  after-records : after.request_records ≡ p.requests.request_records
  unfolding after apply_prepared_delete_checkpoint_subtree
  after-records = p.request_records

  after-retired : after.retired_requests ≡ p.requests.retired_requests
  unfolding after apply_prepared_delete_checkpoint_subtree
  after-retired = p.retired_requests

  after-checkpoints : after.checkpoints ≡ p.kept.checkpoints
  unfolding after apply_prepared_delete_checkpoint_subtree
  after-checkpoints = p.checkpoints

  active_reply :
      (request digest : List ℕ) (found : RequestRecord) (checkpoint : CheckpointRecord)
      → validate_request_id request ≡ ok tt
      → lookup same_bytes request state.request_records ≡ some found
      → same_bytes found.operation_digest digest ≡ true
      → lookup same_bytes request state.retired_requests ≡ none
      → get_elem? state.checkpoints found.checkpoint_ordinal ≡ some checkpoint
      → IsRemapped p.mask p.kept.new_ordinals request found (requests_none state) p.requests
      → IsDecided state.checkpoints p.target p.mask found.checkpoint_ordinal
      → Follows state p.target after request digest (replay found.checkpoint_ordinal)
  active_reply request digest found checkpoint valid there same free place
        (slot, seen, inl (kept, m, at, active, unretired)) (inl (one, inside)) =
      let is : slot ≡ 1 = cc (seen, one) in absurd (cc (kept, ap (λ s. s == 0) is))
  active_reply request digest found checkpoint valid there same free place
        (slot, seen, inl (kept, m, at, active, unretired)) (inr (zero_there, out)) =
      inr (
        out,
        m,
        checkpoint,
        answer_replay after request digest _ valid
            (ap (lookup same_bytes request) after-records ∙ active) same,
        place,
        ap (λ l. get_elem? l m) after-checkpoints
            ∙ retained_request state formed p request found slot there seen kept m checkpoint at
                place,
      )
  active_reply request digest found checkpoint valid there same free place
        (slot, seen, inr (marked, active, retired_now)) (inl (one, inside)) =
      inl (
        inside,
        answer_retired after request digest found.operation_digest valid
            (ap (lookup same_bytes request) after-records ∙ active)
            (ap (lookup same_bytes request) after-retired ∙ retired_now) same,
      )
  active_reply request digest found checkpoint valid there same free place
        (slot, seen, inr (marked, active, retired_now)) (inr (zero_there, out)) =
      let is : slot ≡ 0 = cc (seen, zero_there) in absurd (cc (marked, ap (λ s. s == 0) is))

  status_reply :
      (request digest : List ℕ) (status : RequestStatus)
      → validate_request_id request ≡ ok tt
      → IsClassified
          (lookup same_bytes request state.request_records)
          (lookup same_bytes request state.retired_requests)
          digest
          status
      → Follows state p.target after request digest status
  status_reply request digest new valid (absent, free) =
      let (e, f) = untouched state formed p request absent in
      answer_new after request digest valid (ap (lookup same_bytes request) after-records ∙ e)
        (ap (lookup same_bytes request) after-retired ∙ f ∙ free)
  status_reply request digest retired valid (absent, old, there, same) =
      let (e, f) = untouched state formed p request absent in
      answer_retired after request digest old valid
        (ap (lookup same_bytes request) after-records ∙ e)
        (ap (lookup same_bytes request) after-retired ∙ f ∙ there) same
  status_reply request digest (replay ordinal) valid (found, there, same, is) =
      let (free, (checkpoint, place, operation)) = formed.0.1 request found there in
      subst (λ i. Follows state p.target after request digest (replay i)) is
        (active_reply request digest found checkpoint valid there same free place
          (moved state formed p request found there)
          (decided state formed p found.checkpoint_ordinal
            (get_elem?-lt state.checkpoints found.checkpoint_ordinal place)))

-- Behind a deletion that is prepared and applied to a well-formed state, a request that was new is
-- new, one that was retired is retired, and one that was answered by the ordinal of its checkpoint is
-- retired, if the checkpoint is the target at its index or below it, and else answered by an ordinal
-- that names the same checkpoint in the new table.
pub delete-Follows :
    ⦃sha : Sha256⦄
    → (state : CommittedState) (thread_id checkpoint_id : List ℕ) (target : ℕ)
      {prepared : PreparedSubtreeDelete} (request digest : List ℕ) (status : RequestStatus)
    → WellFormed state
    → lookup same_key (thread_id, checkpoint_id) state.checkpoint_ordinals ≡ some target
    → prepare_delete_checkpoint_subtree state thread_id checkpoint_id ≡ ok prepared
    → classify_request state request digest ≡ ok status
    → Follows state target
        (apply_prepared_delete_checkpoint_subtree state prepared)
        request
        digest
        status
unfolding after classify_request
delete-Follows state thread_id checkpoint_id target {prepared} request digest status formed at h
      classified =
    let p = prepare_delete-Preparation state thread_id checkpoint_id h in
    let (valid, answered) = then_inv (validate_request_id request) classified in
    subst
      (λ t.
        Follows state t (apply_prepared_delete_checkpoint_subtree state prepared) request digest
          status)
      (same_target state formed p target at)
      (status_reply state formed p request digest status valid (
        classify_found_inv (lookup same_bytes request state.request_records)
          (lookup same_bytes request state.retired_requests) digest status answered))
