-- ===== src/Apply/Delete/MaskTotality.antt =====
-- Behind the validation of the state, the loop of the mask meets no error.
use tulya_checkpoint_store.Prelude.{
  ℕ, suc, ◌+◌, ◌<◌, ◌≡◌, ◌∙◌, refl, ap, sym, arith, List, [], ◌∷◌, Option, none, some, Bool-cases,
  inl, inr, lt→leb, ◌==◌, length, get_elem?, set, drop, replicate, ok, saturating_add, u64_max,
  get_elem?-lt, get_elem?_of_lt, get_elem?-drop, length-set, length-replicate,
}
use tulya_checkpoint_store.Format.Codec.{same_bytes}
use tulya_checkpoint_store.Publication.Records.{CheckpointRecord}
use tulya_checkpoint_store.Apply.Maps.{lookup}
use tulya_checkpoint_store.Apply.State.{ApplyError, invalid, CheckpointKey, same_key}
use tulya_checkpoint_store.Apply.Conditions.{IsIndex, IsRooted}
use tulya_checkpoint_store.Apply.Delete.Mask.{mark, mark_child, mark_from, delete_mask}

-- A mark inside the mask succeeds.
mark_ok :
    (mask : List ℕ) (i : ℕ) (error : ApplyError)
    → i < length mask
    → mark mask i error ≡ ok (set mask i 1)
mark_ok mask i error lt = let (slot, at) = get_elem?_of_lt mask i lt in rw at refl

module _ (positions : List (CheckpointKey × ℕ)) (checkpoints : List CheckpointRecord)
    (index : IsIndex positions checkpoints) (rooted : IsRooted checkpoints) where
  -- The parent of a checkpoint is at a position before its own.
  parent_position :
      (n : ℕ) (checkpoint : CheckpointRecord) (parent : List ℕ)
      → get_elem? checkpoints n ≡ some checkpoint
      → checkpoint.parent_checkpoint_id ≡ some parent
      → (j : ℕ) × (lookup same_key (checkpoint.thread_id, parent) positions ≡ some j)
        × (j < n)
        × (j < length checkpoints)
  parent_position n checkpoint parent at named =
      let (j, above, before, place, key) = rooted n checkpoint parent at named in
      (
        j,
        ap (λ k. lookup same_key k positions) (sym key) ∙ index.1 j above place,
        before,
        get_elem?-lt checkpoints j place,
      )

  mark_child_total :
      (mask : List ℕ) (n : ℕ) (checkpoint : CheckpointRecord) (named : Option (List ℕ))
      → length mask ≡ length checkpoints
      → get_elem? checkpoints n ≡ some checkpoint
      → checkpoint.parent_checkpoint_id ≡ named
      → (mask' : List ℕ) × (mark_child positions mask n checkpoint.thread_id named ≡ ok mask')
        × (length mask' ≡ length checkpoints)
  unfolding mark_child
  mark_child_total mask n checkpoint none size at named = (mask, refl, size)
  mark_child_total mask n checkpoint (some parent) size at named =
      let (j, there, before, inside) = parent_position n checkpoint parent at named in
      let (slot, seen) = get_elem?_of_lt mask j (omega arith) in
      let lt = get_elem?-lt checkpoints n at in
      let marked = mark_ok mask n _ (omega arith) in
      elim (Bool-cases (slot == 0)) [
        | inl kept ↦ (mask, rw (there, lt→leb n j before, seen, kept) refl, size)
        | inr deleted ↦ (
          set mask n 1,
          rw (there, lt→leb n j before, seen, deleted) marked,
          length-set mask n 1 ∙ size,
        )
      ]

  mark_from_total :
      (thread_id : List ℕ) (mask : List ℕ) (n : ℕ) (rest : List CheckpointRecord)
      → length mask ≡ length checkpoints
      → ((k m : ℕ) → m ≡ n + k → get_elem? rest k ≡ get_elem? checkpoints m)
      → (mask' : List ℕ) × (mark_from positions thread_id mask n rest ≡ ok mask')
        × (length mask' ≡ length checkpoints)
  unfolding mark_from
  mark_from_total thread_id mask n [] size places = (mask, refl, size)
  mark_from_total thread_id mask n (checkpoint ∷ rest) size places =
      let here : n ≡ n + 0 = omega arith in
      let at = sym (places 0 n here) in
      elim (Bool-cases (same_bytes checkpoint.thread_id thread_id)) [
        | inl same ↦
            let (marked, e, size') =
              mark_child_total mask n checkpoint checkpoint.parent_checkpoint_id size at refl in
            let (mask', f, size'') =
              mark_from_total thread_id marked (suc n) rest size'
                (λ k m g. places (suc k) m (omega arith)) in
            (mask', rw (same, e) f, size'')
        | inr other ↦
            let (mask', f, size'') =
              mark_from_total thread_id mask (suc n) rest size
                (λ k m g. places (suc k) m (omega arith)) in
            (mask', rw other f, size'')
      ]

  pub delete_mask_total :
      (thread_id : List ℕ) (target : ℕ)
      → target < length checkpoints
      → target < u64_max
      → (mask : List ℕ) × (delete_mask positions thread_id target checkpoints ≡ ok mask)
        × (length mask ≡ length checkpoints)
  unfolding delete_mask
  delete_mask_total thread_id target inside bound =
      let start : saturating_add target 1 ≡ suc target = omega arith in
      let blank : List ℕ = replicate (length checkpoints) 0 in
      let size : length blank ≡ length checkpoints = length-replicate (length checkpoints) 0 in
      let marked =
        mark_ok blank target (invalid "v2 deletion target is outside the checkpoint table")
          (omega arith) in
      let (mask', f, size') =
        mark_from_total thread_id (set blank target 1) (suc target) (drop (suc target) checkpoints)
          (length-set blank target 1 ∙ size)
          (λ k m e. get_elem?-drop (suc target) checkpoints k m e) in
      (mask', rw (marked, start) f, size')
