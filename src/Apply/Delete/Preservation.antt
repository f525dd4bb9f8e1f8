-- ===== src/Apply/Delete/Preservation.antt =====
-- A deletion keeps the conditions on the committed state.
use tulya_checkpoint_store.Prelude.{
  ℕ, ◌<◌, ◌≡◌, ◌∙◌, refl, ap, sym, arith, List, Option, none, some, true, false, inl, inr, ◌==◌,
  ==_iff, length, get_elem?, get_elem?-lt, ok,
}
use tulya_checkpoint_store.Format.Records.{Sha256}
use tulya_checkpoint_store.Format.Codec.{same_bytes}
use tulya_checkpoint_store.Publication.Records.{CheckpointRecord}
use tulya_checkpoint_store.Commit.Records.{checkpoint_operation_digest}
use tulya_checkpoint_store.Apply.Maps.{lookup, contains}
use tulya_checkpoint_store.Apply.State.{RequestRecord, same_key, CommittedState}
use tulya_checkpoint_store.Apply.Validate.{key_of}
use tulya_checkpoint_store.Apply.Conditions.{IsRooted, IsActive, WellFormed}
use tulya_checkpoint_store.Apply.Delete.Positions.{same_place}
use tulya_checkpoint_store.Apply.Delete.Mask.{delete_mask}
use tulya_checkpoint_store.Apply.Delete.Descent.{child, IsDecided}
use tulya_checkpoint_store.Apply.Delete.Subtree.{delete_mask-IsDecided}
use tulya_checkpoint_store.Apply.Delete.Ledgers.{
  PreparedSubtreeDelete, requests_none, prepare_delete_checkpoint_subtree,
  apply_prepared_delete_checkpoint_subtree,
}
use tulya_checkpoint_store.Apply.Delete.Remapping.{IsRemapped, IsUntouched, remap_from_lem}
use tulya_checkpoint_store.Apply.Delete.Outcome.{Preparation, prepare_delete-Preparation}

module _ ⦃sha : Sha256⦄ (state : CommittedState) (formed : WellFormed state)
    {thread_id checkpoint_id : List ℕ} {prepared : PreparedSubtreeDelete}
    (p : Preparation state thread_id checkpoint_id prepared) where
  -- The mask tells the subtree from the rest.
  pub decided :
      (i : ℕ) → i < length state.checkpoints → IsDecided state.checkpoints p.target p.mask i
  decided =
      let (last, at, key) = p.index.0 (thread_id, checkpoint_id) p.target p.found in
      let lt = get_elem?-lt state.checkpoints p.target at in
      let bound = formed.3 in
      let in_thread =
        ap (λ t. delete_mask p.positions t p.target state.checkpoints) (ap (λ k. k.0) key)
        ∙ p.masked in
      delete_mask-IsDecided p.positions state.checkpoints p.index p.rooted p.target last at
        (omega arith) in_thread

  -- A checkpoint of the new table is not deleted.
  pub kept_live :
      (m : ℕ) (checkpoint : CheckpointRecord)
      → get_elem? p.kept.checkpoints m ≡ some checkpoint
      → contains same_key (key_of checkpoint) p.kept.deleted_checkpoints ≡ false
  kept_live m checkpoint there =
      let d = p.distributed in
      let (j, lt, at, zero_there) = d.origin m checkpoint there in
      d.others (key_of checkpoint) (λ i other slot lt' place seen marked same.
        let e = same_place p.positions state.checkpoints p.index i j place at (sym same) in
        let moved = ap (get_elem? p.mask) e in
        let is : slot ≡ 0 = cc (moved, seen, zero_there) in
        absurd (cc (marked, ap (λ s. s == 0) is)))
      ∙ formed.0.2 j checkpoint at

  -- The parent of a retained checkpoint is retained, and stands before it.
  kept-IsRooted : IsRooted p.kept.checkpoints
  kept-IsRooted m checkpoint parent there named =
      let d = p.distributed in
      let (i, lt, at, zero_there) = d.origin m checkpoint there in
      let (j, above, before, place, key) = p.rooted i checkpoint parent at named in
      go i j above before place key at zero_there (decided i lt) (decided j (omega arith))
    where
      go :
          (i j : ℕ) (above : CheckpointRecord)
          → j < i
          → get_elem? state.checkpoints j ≡ some above
          → key_of above ≡ (checkpoint.thread_id, parent)
          → get_elem? state.checkpoints i ≡ some checkpoint
          → get_elem? p.mask i ≡ some 0
          → IsDecided state.checkpoints p.target p.mask i
          → IsDecided state.checkpoints p.target p.mask j
          → (k : ℕ) × (above : CheckpointRecord) × (k < m)
            × (get_elem? p.kept.checkpoints k ≡ some above)
            × (key_of above ≡ (checkpoint.thread_id, parent))
      go i j above before place key at zero_there (inl (one, inside)) dj =
          absurd (cc (one, zero_there))
      go i j above before place key at zero_there (inr (e, out)) (inl (one, inside)) =
          absurd (out (child i j checkpoint above parent at named place key inside))
      go i j above before place key at zero_there (inr (e, out)) (inr (zero_above, out')) =
          let d = p.distributed in
          let inside_i = get_elem?-lt state.checkpoints i at in
          let (k, new_k, held) = d.retained j above (omega arith) place zero_above in
          let (m', new_m, held') = d.retained i checkpoint inside_i at zero_there in
          let is =
            same_place p.kept.checkpoint_ordinals p.kept.checkpoints d.index m' m held' there
              refl in
          let rises = d.assigned.1 j i k m' before new_k new_m in (k, above, omega arith, held, key)

  pub moved :
      (request : List ℕ) (found : RequestRecord)
      → lookup same_bytes request state.request_records ≡ some found
      → IsRemapped p.mask p.kept.new_ordinals request found (requests_none state) p.requests
  moved =
      let (moves, rest, keep, keep') =
        remap_from_lem p.mask p.kept.new_ordinals state.request_records (requests_none state)
          formed.1 p.remapped in
      moves

  pub untouched :
      (request : List ℕ)
      → lookup same_bytes request state.request_records ≡ none
      → IsUntouched request (requests_none state) p.requests
  untouched =
      let (moves, rest, keep, keep') =
        remap_from_lem p.mask p.kept.new_ordinals state.request_records (requests_none state)
          formed.1 p.remapped in
      rest

  -- An active request whose checkpoint is retained names that checkpoint by its new ordinal.
  pub retained_request :
      (request : List ℕ) (old : RequestRecord) (slot : ℕ)
      → lookup same_bytes request state.request_records ≡ some old
      → get_elem? p.mask old.checkpoint_ordinal ≡ some slot
      → (slot == 0) ≡ true
      → (m : ℕ) (checkpoint : CheckpointRecord)
      → get_elem? p.kept.new_ordinals old.checkpoint_ordinal ≡ some (some m)
      → get_elem? state.checkpoints old.checkpoint_ordinal ≡ some checkpoint
      → get_elem? p.kept.checkpoints m ≡ some checkpoint
  retained_request request old slot there seen kept m checkpoint at place =
      let zero_there = seen ∙ ap some ((==_iff slot 0).0 kept) in
      let inside = get_elem?-lt state.checkpoints old.checkpoint_ordinal place in
      let (m', at', held) =
        p.distributed.retained old.checkpoint_ordinal checkpoint inside place zero_there in
      let is : m' ≡ m = cc (at, at') in ap (get_elem? p.kept.checkpoints) (sym is) ∙ held

  -- An active request of the new ledger names a checkpoint of its operation, and is not retired.
  kept_active :
      (request : List ℕ) (found : RequestRecord)
      → lookup same_bytes request p.requests.request_records ≡ some found
      → (lookup same_bytes request p.requests.retired_requests ≡ none)
        × ((checkpoint : CheckpointRecord) × (get_elem? p.kept.checkpoints found.checkpoint_ordinal
              ≡ some checkpoint)
            × (checkpoint_operation_digest checkpoint ≡ ok found.operation_digest))
  kept_active request found there = go (lookup same_bytes request state.request_records) refl
    where
      case :
          (old : RequestRecord)
          → lookup same_bytes request state.request_records ≡ some old
          → IsRemapped p.mask p.kept.new_ordinals request old (requests_none state) p.requests
          → IsActive state request old
          → (lookup same_bytes request p.requests.retired_requests ≡ none)
            × ((checkpoint : CheckpointRecord) × (get_elem? p.kept.checkpoints
                    found.checkpoint_ordinal
                  ≡ some checkpoint)
                × (checkpoint_operation_digest checkpoint ≡ ok found.operation_digest))
      case old e (slot, seen, inl (kept, m, at, active, free))
            (unretired, (checkpoint, place, digest)) =
          let is : found
              ≡ record { operation_digest = old.operation_digest; checkpoint_ordinal = m } =
            cc (there, active) in
          let held = retained_request request old slot e seen kept m checkpoint at place in
          (
            free ∙ unretired,
            (
              checkpoint,
              ap (λ f. get_elem? p.kept.checkpoints f.checkpoint_ordinal) is ∙ held,
              digest ∙ ap (λ f. ok f.operation_digest) (sym is),
            ),
          )
      case old e (slot, seen, inr (marked, active, retired)) active_old =
          absurd (cc (there, active))

      go :
          (old : Option RequestRecord)
          → lookup same_bytes request state.request_records ≡ old
          → (lookup same_bytes request p.requests.retired_requests ≡ none)
            × ((checkpoint : CheckpointRecord) × (get_elem? p.kept.checkpoints
                    found.checkpoint_ordinal
                  ≡ some checkpoint)
                × (checkpoint_operation_digest checkpoint ≡ ok found.operation_digest))
      go none e = let (gone, free) = untouched request e in absurd (cc (there, gone))
      go (some old) e = case old e (moved request old e) (formed.0.1 request old e)

  -- The conditions on the new ledgers.
  ledgers-WellFormed : WellFormed (record {
    payload = state.payload;
    nodes = state.nodes;
    versions = state.versions;
    checkpoints = p.kept.checkpoints;
    checkpoint_ordinals = p.kept.checkpoint_ordinals;
    request_records = p.requests.request_records;
    retired_requests = p.requests.retired_requests;
    deleted_checkpoints = p.kept.deleted_checkpoints;
  })
  ledgers-WellFormed =
      let (moves, rest, keep, keep') =
        remap_from_lem p.mask p.kept.new_ordinals state.request_records (requests_none state)
          formed.1 p.remapped in
      let fewer = p.distributed.fewer in
      let bound = formed.3 in
      ((p.distributed.index, kept_active, kept_live), keep tt, kept-IsRooted, omega arith)

-- A deletion that is prepared and then applied keeps the conditions.
pub delete-WellFormed :
    ⦃sha : Sha256⦄
    → (state : CommittedState) (thread_id checkpoint_id : List ℕ) {prepared : PreparedSubtreeDelete}
    → WellFormed state
    → prepare_delete_checkpoint_subtree state thread_id checkpoint_id ≡ ok prepared
    → WellFormed (apply_prepared_delete_checkpoint_subtree state prepared)
unfolding apply_prepared_delete_checkpoint_subtree
delete-WellFormed state thread_id checkpoint_id {prepared} formed h =
    let p = prepare_delete-Preparation state thread_id checkpoint_id h in
    let kept = ledgers-WellFormed state formed p in
    rw
      (
        p.checkpoints, p.checkpoint_ordinals, p.request_records, p.retired_requests,
        p.deleted_checkpoints,
      )
      kept
