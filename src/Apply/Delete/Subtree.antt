-- ===== src/Apply/Delete/Subtree.antt =====
-- The mask of a deletion marks the target and its descendants.
use mathlib.Core.Path.{subst}
use tulya_checkpoint_store.Prelude.{
  ℕ, suc, ◌+◌, ◌<◌, ◌≡◌, ◌∙◌, refl, ap, sym, arith, List, [], ◌∷◌, Option, none, some, Bool-cases,
  inl, inr, leb, leb→lt, ◌==◌, if◌then◌else◌, length, get_elem?, set, drop, replicate, ok, reject,
  bind_inv, then_inv, ok_or_inv, reject_inv, saturating_add, u64_max, get_elem?-lt, le_of_get_elem?,
  get_elem?-replicate, get_elem?-drop,
}
use tulya_checkpoint_store.Format.Codec.{same_bytes}
use tulya_checkpoint_store.Publication.Records.{CheckpointRecord}
use tulya_checkpoint_store.Apply.Maps.{lookup}
use tulya_checkpoint_store.Apply.State.{ApplyError, CheckpointKey, same_key}
use tulya_checkpoint_store.Apply.Validate.{key_of}
use tulya_checkpoint_store.Apply.Outcomes.{same_bytes-Decides}
use tulya_checkpoint_store.Apply.Conditions.{IsIndex, IsRooted}
use tulya_checkpoint_store.Apply.Delete.Positions.{same_place}
use tulya_checkpoint_store.Apply.Delete.Mask.{mark, mark_child, mark_from, delete_mask}
use tulya_checkpoint_store.Apply.Delete.Descent.{
  InSubtree, root, child, IsDecided, DecidesBelow, mark_inv,
}
use tulya_checkpoint_store.Apply.Delete.Decisions.{
  InSubtree-from, InSubtree-thread, keep_mask, set_mask,
}

module _ (positions : List (CheckpointKey × ℕ)) (checkpoints : List CheckpointRecord)
    (index : IsIndex positions checkpoints) (rooted : IsRooted checkpoints) where
  -- A checkpoint behind the target is in the subtree only through its parent.
  not_inside :
      {n : ℕ} (target : ℕ) (checkpoint : CheckpointRecord)
      → target < n
      → get_elem? checkpoints n ≡ some checkpoint
      → ((parent : List ℕ) (j : ℕ) (above : CheckpointRecord)
          → checkpoint.parent_checkpoint_id ≡ some parent
          → get_elem? checkpoints j ≡ some above
          → key_of above ≡ (checkpoint.thread_id, parent)
          → ¬ InSubtree checkpoints target j)
      → ¬ InSubtree checkpoints target n
  not_inside target checkpoint lt at outside (root n e) = omega arith
  not_inside target checkpoint lt at outside
        (child n j other above parent here named there key inside) =
      let is : other ≡ checkpoint = cc (at, here) in
      outside parent j above (ap (λ c. c.parent_checkpoint_id) (sym is) ∙ named) there
        (key ∙ ap (λ c. (c.thread_id, parent)) is) inside

  mark_child_named :
      (target : ℕ) (mask : List ℕ) (n : ℕ) (checkpoint : CheckpointRecord) (parent : List ℕ)
      {mask' : List ℕ}
      → DecidesBelow checkpoints target mask n
      → target < n
      → get_elem? checkpoints n ≡ some checkpoint
      → checkpoint.parent_checkpoint_id ≡ some parent
      → mark_child positions mask n checkpoint.thread_id (some parent) ≡ ok mask'
      → DecidesBelow checkpoints target mask' (suc n)
  unfolding mark_child
  mark_child_named target mask n checkpoint parent {mask'} decided lt at named h =
      let (j, there, h1) =
        ok_or_inv (lookup same_key (checkpoint.thread_id, parent) positions) _ h in
      let (prior, h2) = then_inv (reject (leb n j) _) h1 in
      let (slot, seen, h3) = ok_or_inv (get_elem? mask j) _ h2 in
      let (above, found, key) = index.0 (checkpoint.thread_id, parent) j there in
      let before = leb→lt n j (reject_inv _ _ prior) in
      go slot _ seen h3 above found key (decided.0 j (get_elem?-lt checkpoints j found) before)
    where
      inside : n < length checkpoints
      inside = get_elem?-lt checkpoints n at

      go :
          {j : ℕ} (slot : ℕ) (error : ApplyError)
          → get_elem? mask j ≡ some slot
          → (if slot == 0 then ok mask else mark mask n error) ≡ ok mask'
          → (above : CheckpointRecord) → get_elem? checkpoints j ≡ some above
          → key_of above ≡ (checkpoint.thread_id, parent)
          → IsDecided checkpoints target mask j
          → DecidesBelow checkpoints target mask' (suc n)
      go {j} slot error seen h3 above found key (inl (one, yes_in)) =
          let is : slot ≡ 1 = cc (seen, one) in
          let h4 = ap (λ s. if s == 0 then ok mask else mark mask n error) (sym is) ∙ h3 in
          let (old, at_n, h5) = ok_or_inv (get_elem? mask n) error h4 in
          let e : set mask n 1 ≡ mask' = cc h5 in
          subst (λ m. DecidesBelow checkpoints target m (suc n)) e
            (set_mask checkpoints target mask n decided inside
              (child n j checkpoint above parent at named found key yes_in))
      go {j} slot error seen h3 above found key (inr (zero_there, out)) =
          let is : slot ≡ 0 = cc (seen, zero_there) in
          let h4 = ap (λ s. if s == 0 then ok mask else mark mask n error) (sym is) ∙ h3 in
          let e : mask ≡ mask' = cc h4 in
          subst (λ m. DecidesBelow checkpoints target m (suc n)) e
            (keep_mask checkpoints target mask n decided inside (
              not_inside target checkpoint lt at (λ other k there named' place key'.
                let p : other ≡ parent = cc (named, named') in
                let one_key = key' ∙ ap (λ q. (checkpoint.thread_id, q)) p ∙ sym key in
                subst (λ m. ¬ InSubtree checkpoints target m)
                  (sym (same_place positions checkpoints index k j place found one_key)) out)))

  mark_child_lem :
      (target : ℕ) (mask : List ℕ) (n : ℕ) (checkpoint : CheckpointRecord) (named : Option (List ℕ))
      {mask' : List ℕ}
      → DecidesBelow checkpoints target mask n
      → target < n
      → get_elem? checkpoints n ≡ some checkpoint
      → checkpoint.parent_checkpoint_id ≡ named
      → mark_child positions mask n checkpoint.thread_id named ≡ ok mask'
      → DecidesBelow checkpoints target mask' (suc n)
  unfolding mark_child
  mark_child_lem target mask n checkpoint none {mask'} decided lt at orphan h =
      let e : mask ≡ mask' = cc h in
      subst (λ m. DecidesBelow checkpoints target m (suc n)) e
        (keep_mask checkpoints target mask n decided (get_elem?-lt checkpoints n at)
          (not_inside target checkpoint lt at (λ p k above named. absurd (cc (orphan, named)))))
  mark_child_lem target mask n checkpoint (some parent) decided lt at named h =
      mark_child_named target mask n checkpoint parent decided lt at named h

  module _ (target : ℕ) (last : CheckpointRecord)
      (found : get_elem? checkpoints target ≡ some last) where
    mark_step :
        (mask : List ℕ) (n : ℕ) (checkpoint : CheckpointRecord) {mask' : List ℕ}
        → DecidesBelow checkpoints target mask n
        → target < n
        → get_elem? checkpoints n ≡ some checkpoint
        → (if same_bytes checkpoint.thread_id last.thread_id
            then mark_child positions mask n checkpoint.thread_id checkpoint.parent_checkpoint_id
            else ok mask)
          ≡ ok mask'
        → DecidesBelow checkpoints target mask' (suc n)
    mark_step mask n checkpoint {mask'} decided lt at h =
        elim (Bool-cases (same_bytes checkpoint.thread_id last.thread_id)) [
          | inl same ↦
              mark_child_lem target mask n checkpoint checkpoint.parent_checkpoint_id decided lt at
                refl (rw same at h)
          | inr other ↦
              let e : mask ≡ mask' = cc (rw other at h) in
              subst (λ m. DecidesBelow checkpoints target m (suc n)) e
                (keep_mask checkpoints target mask n decided (get_elem?-lt checkpoints n at)
                  (λ inside.
                    let one_thread =
                      InSubtree-thread positions checkpoints index rooted target last found
                        checkpoint inside at in
                    let same = (same_bytes-Decides _ _).1 one_thread in absurd (cc (same, other))))
        ]

    mark_from_lem :
        (mask : List ℕ) (n : ℕ) (rest : List CheckpointRecord) {mask' : List ℕ}
        → DecidesBelow checkpoints target mask n
        → target < n
        → ((k m : ℕ) → m ≡ n + k → get_elem? rest k ≡ get_elem? checkpoints m)
        → mark_from positions last.thread_id mask n rest ≡ ok mask'
        → (i : ℕ) → i < length checkpoints
        → IsDecided checkpoints target mask' i
    unfolding mark_from
    mark_from_lem mask n [] {mask'} (below, above) lt places h =
        let e : mask ≡ mask' = cc h in
        let end = le_of_get_elem? checkpoints n (sym (places 0 n (omega arith))) in
        λ i inside. subst (λ m. IsDecided checkpoints target m i) e (below i inside (omega arith))
    mark_from_lem mask n (checkpoint ∷ rest) {mask'} decided lt places h =
        let (marked, h1, h2) = bind_inv h in
        mark_from_lem marked (suc n) rest
          (mark_step mask n checkpoint decided lt (sym (places 0 n (omega arith))) h1) (omega arith)
          (λ k m e. places (suc k) m (omega arith)) h2

    -- When the mask is made, it tells the target and its descendants from the other checkpoints.
    pub delete_mask-IsDecided :
        {mask : List ℕ}
        → target < u64_max
        → delete_mask positions last.thread_id target checkpoints ≡ ok mask
        → (i : ℕ) → i < length checkpoints
        → IsDecided checkpoints target mask i
    unfolding delete_mask
    delete_mask-IsDecided {mask} bound h =
        let marked : List ℕ = set (replicate (length checkpoints) 0) target 1 in
        let h2 = mark_inv (replicate (length checkpoints) 0) target _ _ h in
        let start : saturating_add target 1 ≡ suc target = omega arith in
        mark_from_lem marked (suc target) (drop (suc target) checkpoints)
          (set_mask checkpoints target (replicate (length checkpoints) 0) target zeroes inside
            (root target refl))
          (omega arith) (λ k m f. get_elem?-drop (suc target) checkpoints k m f)
          (ap (λ n. mark_from positions last.thread_id marked n (drop n checkpoints)) (sym start)
            ∙ h2)
      where
        inside : target < length checkpoints
        inside = get_elem?-lt checkpoints target found

        zeroes : DecidesBelow checkpoints target (replicate (length checkpoints) 0) target
        zeroes = (
          λ i within lt. inr (
            get_elem?-replicate (length checkpoints) i 0 within,
            λ is_in.
                let le =
                  InSubtree-from positions checkpoints index rooted target last found is_in in
                absurd (omega arith),
          ),
          λ i within le. get_elem?-replicate (length checkpoints) i 0 within,
        )
