-- ===== src/Apply/Reachable.antt =====
-- The states that commits, retirements and deletions reach from the empty one keep the conditions.
use mathlib.Core.Path.{subst}
use tulya_checkpoint_store.Prelude.{
  ℕ, ◌≤◌, ◌≡◌, ◌∙◌, refl, ap, sym, arith, List, [], ◌∷◌, ◌++◌, Option, none, some, true, length,
  length-append, get_elem?, get_elem?-lt, get_elem?-append_left, ok, reject, reject_inv, then_inv,
  bind_inv, true_of_not, u64_max,
}
use tulya_checkpoint_store.Format.Records.{Sha256}
use tulya_checkpoint_store.Format.Codec.{same_bytes}
use tulya_checkpoint_store.Publication.Records.{Utf8, CheckpointRecord}
use tulya_checkpoint_store.Commit.Bounded.{decode_commit-Bounded}
use tulya_checkpoint_store.Apply.Maps.{lookup, is_some, IsUnique, insert-IsUnique, remove-IsUnique}
use tulya_checkpoint_store.Apply.State.{
  ApplyOutcome, applied, replayed, retired_request, RequestRecord, same_key, CommittedState,
  default_state, validate_request_id,
}
use tulya_checkpoint_store.Apply.Requests.{active_digest, retire_request}
use tulya_checkpoint_store.Apply.Validate.{key_of, validate_parent}
use tulya_checkpoint_store.Apply.Commits.{record_request, commit_state, apply_commit}
use tulya_checkpoint_store.Apply.Outcomes.{
  same_bytes-Decides, geometry_inv, apply_commit-Applied, apply_commit-Kept,
}
use tulya_checkpoint_store.Apply.Replays.{retire}
use tulya_checkpoint_store.Apply.Conditions.{IsIndex, IsRooted, WellFormed, append-IsRooted}
use tulya_checkpoint_store.Apply.Invariant.{default_state-IsConsistent, accepted_key}
use tulya_checkpoint_store.Apply.Consistent.{
  new_facts, commit_state-IsConsistent, retire_request-IsConsistent,
}
use tulya_checkpoint_store.Apply.Delete.Ledgers.{
  PreparedSubtreeDelete, prepare_delete_checkpoint_subtree,
  apply_prepared_delete_checkpoint_subtree,
}
use tulya_checkpoint_store.Apply.Delete.Preservation.{delete-WellFormed}

record_request-IsUnique :
    (named : Option (List ℕ)) (digest : List ℕ) (ordinal : ℕ)
    (entries : List (List ℕ × RequestRecord))
    → IsUnique same_bytes entries
    → IsUnique same_bytes (record_request named digest ordinal entries)
unfolding record_request
record_request-IsUnique none digest ordinal entries u = u
record_request-IsUnique (some request) digest ordinal entries u =
    insert-IsUnique same_bytes same_bytes-Decides request _ entries u

-- A parent that is accepted is in the table.
accepted_parent :
    (state : CommittedState) (thread_id : List ℕ) (named : Option (List ℕ)) (parent : List ℕ)
    → IsIndex state.checkpoint_ordinals state.checkpoints
    → validate_parent state thread_id named ≡ ok tt
    → named ≡ some parent
    → (j : ℕ) × (above : CheckpointRecord) × (get_elem? state.checkpoints j ≡ some above)
      × (key_of above ≡ (thread_id, parent))
unfolding validate_parent
accepted_parent state thread_id none parent index h e = absurd (cc e)
accepted_parent state thread_id (some named) parent index h e =
    go (lookup same_key (thread_id, named) state.checkpoint_ordinals) refl
      (true_of_not (reject_inv _ _ h))
  where
    go :
        (found : Option ℕ)
        → lookup same_key (thread_id, named) state.checkpoint_ordinals ≡ found
        → is_some (lookup same_key (thread_id, named) state.checkpoint_ordinals) ≡ true
        → (j : ℕ) × (above : CheckpointRecord) × (get_elem? state.checkpoints j ≡ some above)
          × (key_of above ≡ (thread_id, parent))
    go none absent present = absurd (cc (ap is_some absent, present))
    go (some j) there present =
        let (above, at, key) = index.0 (thread_id, named) j there in
        let is : named ≡ parent = cc e in (j, above, at, key ∙ ap (λ p. (thread_id, p)) is)

module _ ⦃sha : Sha256⦄ ⦃text : Utf8⦄ where
  applied-WellFormed :
      (state : CommittedState) (bytes : List ℕ) (ordinal : ℕ) (state' : CommittedState)
      → WellFormed state
      → apply_commit state bytes ≡ ok (applied ordinal, state')
      → WellFormed state'
  unfolding commit_state
  applied-WellFormed state bytes ordinal state' (consistent, unique, rooted, bound) h =
      let (decoded, decodes, fresh, based, valid, count, is) = apply_commit-Applied state bytes h in
      let last = decoded.wal.transaction.checkpoint in
      let (key, live, parent) = accepted_key state decoded valid in
      let (p, n, v, c, fits, top) = decode_commit-Bounded bytes decodes in
      let (p', n', v', c') = geometry_inv state based in
      let sized : length (state.checkpoints ++ last ∷ []) ≤ u64_max =
        let le = fits.3 in omega (arith, length-append state.checkpoints (last ∷ [])) in
      subst WellFormed (sym (is ∙ ap (commit_state state decoded) count)) (
        commit_state-IsConsistent state decoded consistent
            (new_facts state bytes decoded decodes fresh) valid,
        record_request-IsUnique decoded.request_id decoded.operation_digest
            (length state.checkpoints) state.request_records unique,
        append-IsRooted state.checkpoints last rooted (λ above_id named.
            let (j, above, at, same) =
              accepted_parent state last.thread_id last.parent_checkpoint_id above_id consistent.0
                parent named in
            (
              j,
              above,
              get_elem?-lt state.checkpoints j at,
              get_elem?-append_left state.checkpoints (last ∷ []) j at,
              same,
            )),
        sized,
      )

  apply_commit-WellFormed :
      (state : CommittedState) (bytes : List ℕ) (outcome : ApplyOutcome) (state' : CommittedState)
      → WellFormed state
      → apply_commit state bytes ≡ ok (outcome, state')
      → WellFormed state'
  apply_commit-WellFormed state bytes (applied n) state' formed h =
      applied-WellFormed state bytes n state' formed h
  apply_commit-WellFormed state bytes (replayed n) state' formed h =
      subst WellFormed (sym (apply_commit-Kept state bytes h (λ m e. absurd (cc e)))) formed
  apply_commit-WellFormed state bytes retired_request state' formed h =
      subst WellFormed (sym (apply_commit-Kept state bytes h (λ m e. absurd (cc e)))) formed

retire_request-WellFormed :
    ⦃sha : Sha256⦄
    → (state : CommittedState) (request : List ℕ) {state' : CommittedState} → WellFormed state
    → retire_request state request ≡ ok state'
    → WellFormed state'
unfolding retire_request
retire_request-WellFormed state request {state'} (consistent, unique, rooted, bound) h =
    let (valid, h1) = then_inv (validate_request_id request) h in
    let (free, h2) =
      then_inv (reject (is_some (lookup same_bytes request state.retired_requests)) _) h1 in
    let (digest, h3, h4) =
      bind_inv {m = active_digest (lookup same_bytes request state.request_records)} h2 in
    let is : retire state request digest ≡ state' = cc h4 in
    (
      retire_request-IsConsistent state request consistent h,
      subst (λ s. IsUnique same_bytes s.request_records) is
          (remove-IsUnique same_bytes same_bytes-Decides request state.request_records unique),
      subst (λ s. IsRooted s.checkpoints) is rooted,
      subst (λ s. length s.checkpoints ≤ u64_max) is bound,
    )

-- The states that commits, in any order and with any outcome, retirements of requests, and deletions
-- of checkpoints reach.
pub data Reachable ⦃sha : Sha256⦄ ⦃text : Utf8⦄ : CommittedState → Type 0 where
  start : Reachable default_state
  commit :
      (state : CommittedState) (bytes : List ℕ) (outcome : ApplyOutcome) (state' : CommittedState)
      → Reachable state
      → apply_commit state bytes ≡ ok (outcome, state')
      → Reachable state'
  retirement :
      (state : CommittedState) (request : List ℕ) (state' : CommittedState)
      → Reachable state
      → retire_request state request ≡ ok state'
      → Reachable state'
  deletion :
      (state : CommittedState) (thread_id checkpoint_id : List ℕ) (prepared : PreparedSubtreeDelete)
      (state' : CommittedState)
      → Reachable state
      → prepare_delete_checkpoint_subtree state thread_id checkpoint_id ≡ ok prepared
      → apply_prepared_delete_checkpoint_subtree state prepared ≡ state'
      → Reachable state'

-- In a state that commits, retirements and deletions reach from the empty one, the index and the
-- table of the checkpoints agree both ways, an active request is not retired and names a checkpoint
-- whose operation has its digest, no checkpoint in the table is deleted, an active request has one
-- entry, a checkpoint with a parent has it in its thread and before itself, and the table has a
-- 64-bit length.
pub Reachable-WellFormed :
    ⦃sha : Sha256⦄ ⦃text : Utf8⦄ → (state : CommittedState) → Reachable state → WellFormed state
Reachable-WellFormed state start =
    (default_state-IsConsistent, tt, (λ i checkpoint parent there. absurd (cc there)), omega arith)
Reachable-WellFormed state (commit before bytes outcome state' reached h) =
    apply_commit-WellFormed before bytes outcome state' (Reachable-WellFormed before reached) h
Reachable-WellFormed state (retirement before request state' reached h) =
    retire_request-WellFormed before request (Reachable-WellFormed before reached) h
Reachable-WellFormed state (deletion before thread_id checkpoint_id prepared state' reached h e) =
    subst WellFormed e
      (delete-WellFormed before thread_id checkpoint_id (Reachable-WellFormed before reached) h)
