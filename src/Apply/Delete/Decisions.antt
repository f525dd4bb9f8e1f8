-- ===== src/Apply/Delete/Decisions.antt =====
-- A subtree keeps its thread and starts at its target, and a mask that is decided below an index is
-- decided there too once it is kept or set.
use mathlib.Core.Path.{subst}
use tulya_checkpoint_store.Prelude.{
  ℕ, suc, ◌≤◌, ◌<◌, ◌≡◌, ◌∙◌, ap, sym, arith, List, some, inl, inr, length, get_elem?, set,
  lt-or-eq, get_elem?-lt, get_elem?-set_self, get_elem?-set_other,
}
use tulya_checkpoint_store.Publication.Records.{CheckpointRecord}
use tulya_checkpoint_store.Apply.State.{CheckpointKey}
use tulya_checkpoint_store.Apply.Conditions.{IsIndex, IsRooted}
use tulya_checkpoint_store.Apply.Delete.Positions.{same_place}
use tulya_checkpoint_store.Apply.Delete.Descent.{InSubtree, root, child, IsDecided, DecidesBelow}

module _ (positions : List (CheckpointKey × ℕ)) (checkpoints : List CheckpointRecord)
    (index : IsIndex positions checkpoints) (rooted : IsRooted checkpoints) where
  module _ (target : ℕ) (last : CheckpointRecord)
      (found : get_elem? checkpoints target ≡ some last) where
    pub InSubtree-from : {i : ℕ} → InSubtree checkpoints target i → target ≤ i
    InSubtree-from (root i e) = omega arith
    InSubtree-from (child i j checkpoint above parent at named there key inside) =
        let (k, other, lt, place, key') = rooted i checkpoint parent at named in
        let e = same_place positions checkpoints index j k there place (key ∙ sym key') in
        let ih = InSubtree-from inside in omega arith

    pub InSubtree-thread :
        {i : ℕ} (c : CheckpointRecord)
        → InSubtree checkpoints target i
        → get_elem? checkpoints i ≡ some c
        → c.thread_id ≡ last.thread_id
    InSubtree-thread c (root i e) at =
        let moved = ap (get_elem? checkpoints) e in
        let is : c ≡ last = cc (moved, at, found) in ap (λ c. c.thread_id) is
    InSubtree-thread c (child i j checkpoint above parent here named there key inside) at =
        let ih = InSubtree-thread above inside there in
        let is : c ≡ checkpoint = cc (at, here) in
        ap (λ c. c.thread_id) is ∙ sym (ap (λ k. k.0) key) ∙ ih

module _ (checkpoints : List CheckpointRecord) where
  -- One more index is decided: the mask stays, or it is set there.
  pub keep_mask :
      (target : ℕ) (mask : List ℕ) (n : ℕ)
      → DecidesBelow checkpoints target mask n
      → n < length checkpoints
      → ¬ InSubtree checkpoints target n
      → DecidesBelow checkpoints target mask (suc n)
  keep_mask target mask n (below, above) inside out = (
    λ i within lt. elim (lt-or-eq i n lt) [
      | inl earlier ↦ below i within earlier
      | inr e ↦
          subst (IsDecided checkpoints target mask) (sym e)
            (inr (above n inside (omega arith), out))
    ],
    λ i within le. above i within (omega arith),
  )

  pub set_mask :
      (target : ℕ) (mask : List ℕ) (n : ℕ)
      → DecidesBelow checkpoints target mask n
      → n < length checkpoints
      → InSubtree checkpoints target n
      → DecidesBelow checkpoints target (set mask n 1) (suc n)
  set_mask target mask n (below, above) inside yes_in = (
    λ i within lt. elim (lt-or-eq i n lt) [
      | inl earlier ↦ moved i earlier (below i within earlier)
      | inr e ↦ subst (IsDecided checkpoints target (set mask n 1)) (sym e) (inl (here, yes_in))
    ],
    λ i within le.
        get_elem?-set_other mask n i 1 (λ e. absurd (omega arith)) ∙ above i within (omega arith),
  )
    where
      here : get_elem? (set mask n 1) n ≡ some 1
      here = get_elem?-set_self mask n 1 (get_elem?-lt mask n (above n inside (omega arith)))

      moved :
          (i : ℕ)
          → i < n
          → IsDecided checkpoints target mask i
          → IsDecided checkpoints target (set mask n 1) i
      moved i lt (inl (at, there)) =
          inl (get_elem?-set_other mask n i 1 (λ e. absurd (omega arith)) ∙ at, there)
      moved i lt (inr (at, out)) =
          inr (get_elem?-set_other mask n i 1 (λ e. absurd (omega arith)) ∙ at, out)
