-- ===== src/Apply/Delete/Effect.antt =====
-- What a deletion does: the target and its descendants are deleted and no other checkpoint, and each
-- request keeps its answer, or is retired with its checkpoint.
use tulya_checkpoint_store.Prelude.{
  ℕ, ◌≡◌, ◌∙◌, refl, ap, sym, List, Option, none, some, true, false, ◌⊎◌, inl, inr, get_elem?,
  get_elem?-lt, ok,
}
use tulya_checkpoint_store.Format.Records.{Sha256}
use tulya_checkpoint_store.Publication.Records.{CheckpointRecord}
use tulya_checkpoint_store.Apply.Maps.{lookup, contains}
use tulya_checkpoint_store.Apply.State.{CheckpointKey, same_key, CommittedState}
use tulya_checkpoint_store.Apply.Validate.{key_of}
use tulya_checkpoint_store.Apply.Conditions.{WellFormed}
use tulya_checkpoint_store.Apply.Delete.Positions.{same_place}
use tulya_checkpoint_store.Apply.Delete.Descent.{InSubtree, IsDecided}
use tulya_checkpoint_store.Apply.Delete.Ledgers.{
  PreparedSubtreeDelete, prepare_delete_checkpoint_subtree,
  apply_prepared_delete_checkpoint_subtree,
}
use tulya_checkpoint_store.Apply.Delete.Outcome.{Preparation, prepare_delete-Preparation}
use tulya_checkpoint_store.Apply.Delete.Preservation.{decided, kept_live}

-- The checkpoint at an index is deleted, and no longer in the table.
abbrev pub IsGone : CommittedState → CheckpointKey → Type 0
IsGone state key =
    (contains same_key key state.deleted_checkpoints ≡ true)
    × (lookup same_key key state.checkpoint_ordinals ≡ none)

-- The checkpoint is in the table at the ordinal of the index, and not deleted.
abbrev pub IsLive : CommittedState → CheckpointRecord → ℕ → Type 0
IsLive state checkpoint m =
    (get_elem? state.checkpoints m ≡ some checkpoint)
    × (lookup same_key (key_of checkpoint) state.checkpoint_ordinals ≡ some m)
    × (contains same_key (key_of checkpoint) state.deleted_checkpoints ≡ false)

module _ ⦃sha : Sha256⦄ (state : CommittedState) (formed : WellFormed state)
    {thread_id checkpoint_id : List ℕ} {prepared : PreparedSubtreeDelete}
    (p : Preparation state thread_id checkpoint_id prepared) where
  -- The target of the index is the target of the positions.
  pub same_target :
      (target : ℕ)
      → lookup same_key (thread_id, checkpoint_id) state.checkpoint_ordinals ≡ some target
      → p.target ≡ target
  same_target target at =
      let (a, here, key) = p.index.0 (thread_id, checkpoint_id) p.target p.found in
      let (b, there, key') = formed.0.0.0 (thread_id, checkpoint_id) target at in
      same_place p.positions state.checkpoints p.index p.target target here there (key ∙ sym key')

  -- A deleted checkpoint is not in the new index.
  dropped_key :
      (i : ℕ) (checkpoint : CheckpointRecord)
      → get_elem? state.checkpoints i ≡ some checkpoint
      → get_elem? p.mask i ≡ some 1
      → (found : Option ℕ) → lookup same_key (key_of checkpoint) p.kept.checkpoint_ordinals ≡ found
      → found ≡ none
  dropped_key i checkpoint at one none e = refl
  dropped_key i checkpoint at one (some m) e =
      let (other, there, key) = p.distributed.index.0 (key_of checkpoint) m e in
      let (j, lt, place, zero_there) = p.distributed.origin m other there in
      let same = same_place p.positions state.checkpoints p.index j i place at key in
      let here = ap (get_elem? p.mask) same in absurd (cc (here, one, zero_there))

  kept_effect :
      (i : ℕ) (checkpoint : CheckpointRecord)
      → get_elem? state.checkpoints i ≡ some checkpoint
      → IsDecided state.checkpoints p.target p.mask i
      → (InSubtree state.checkpoints p.target i
          × ((contains same_key (key_of checkpoint) p.kept.deleted_checkpoints ≡ true)
              × (lookup same_key (key_of checkpoint) p.kept.checkpoint_ordinals ≡ none)))
        ⊎ ((¬ InSubtree state.checkpoints p.target i)
            × (m : ℕ) × ((get_elem? p.kept.checkpoints m ≡ some checkpoint)
                × (lookup same_key (key_of checkpoint) p.kept.checkpoint_ordinals ≡ some m)
                × (contains same_key (key_of checkpoint) p.kept.deleted_checkpoints ≡ false)))
  kept_effect i checkpoint at (inl (one, inside)) = inl (
    inside,
    (
      p.distributed.dropped i checkpoint 1 (get_elem?-lt state.checkpoints i at) at one refl,
      dropped_key i checkpoint at one _ refl,
    ),
  )
  kept_effect i checkpoint at (inr (zero_there, out)) =
      let (m, new_m, held) =
        p.distributed.retained i checkpoint (get_elem?-lt state.checkpoints i at) at zero_there in
      inr (
        out,
        m,
        (held, p.distributed.index.1 m checkpoint held, kept_live state formed p m checkpoint held),
      )

-- A deletion that is prepared and applied to a well-formed state deletes the checkpoint at the index
-- of its target and the checkpoints below it: a checkpoint of the table that is one of these has its
-- identity in the deleted ones and no longer in the index, and every other checkpoint is in the new
-- table, at its ordinal of the new index, and not deleted.
pub delete-Subtree :
    ⦃sha : Sha256⦄
    → (state : CommittedState) (thread_id checkpoint_id : List ℕ) (target : ℕ)
      {prepared : PreparedSubtreeDelete} (i : ℕ) (checkpoint : CheckpointRecord)
    → WellFormed state
    → lookup same_key (thread_id, checkpoint_id) state.checkpoint_ordinals ≡ some target
    → prepare_delete_checkpoint_subtree state thread_id checkpoint_id ≡ ok prepared
    → get_elem? state.checkpoints i ≡ some checkpoint
    → (InSubtree state.checkpoints target i
        × IsGone (apply_prepared_delete_checkpoint_subtree state prepared) (key_of checkpoint))
      ⊎ ((¬ InSubtree state.checkpoints target i)
          × (m : ℕ) × IsLive (apply_prepared_delete_checkpoint_subtree state prepared) checkpoint m)
unfolding apply_prepared_delete_checkpoint_subtree
delete-Subtree state thread_id checkpoint_id target {prepared} i checkpoint formed at h place =
    let p = prepare_delete-Preparation state thread_id checkpoint_id h in
    let is = same_target state formed p target at in
    let effect =
      kept_effect state formed p i checkpoint place
        (decided state formed p i (get_elem?-lt state.checkpoints i place)) in
    rw (p.checkpoints, p.checkpoint_ordinals, p.deleted_checkpoints, ← is) effect
