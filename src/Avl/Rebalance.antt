-- ===== src/Avl/Rebalance.antt =====
-- `rebalance_on` on sides whose heights differ by two levels at most.
use tulya_checkpoint_store.Prelude.{
  ◌+◌, ◌-◌, ◌≤◌, refl, max, ◌++◌, arith, length, u64_max, inl, inr, Bool-cases, ltb, leb, leb→le,
  leb→lt, ltb→lt, ltb→le,
}
use tulya_checkpoint_store.Format.Records.{Sha256, RootRecord, none_node}
use tulya_checkpoint_store.Format.Build.{abs_diff}
use tulya_checkpoint_store.Avl.Action.{State}
use tulya_checkpoint_store.Avl.Edit.{rebalance}
use tulya_checkpoint_store.Avl.Tree.{Tree, len_of, height_of, root_of, content}
use tulya_checkpoint_store.Avl.Runs.{Runs, Runs-imp, Grows-refl}
use tulya_checkpoint_store.Avl.RotateLeft.{rotate_left_high-Runs}
use tulya_checkpoint_store.Avl.RotateRight.{rotate_right_high-Runs}
use tulya_checkpoint_store.Avl.Alloc.{Yields}
use tulya_checkpoint_store.Avl.Pieces.{IsHeld, Yields-after, branch-Runs}

module _ ⦃sha : Sha256⦄ where
  -- For sides that differ by one level at most the result is one level higher than both.
  abbrev pub Rebalances : State → Tree → Tree → RootRecord → State → Type 0
  Rebalances s l r =
      Yields s 3 0 (content l ++ content r)
        (max (height_of l) (height_of r) + 2 - max 1 (abs_diff (height_of l) (height_of r)))
        (max (height_of l) (height_of r) + 1)

  -- Rebalancing two held trees whose heights differ by two levels at most succeeds, by a plain branch
  -- or a single or double rotation: the root is that of a balanced tree with the bytes of both in
  -- order, as high as the higher one or one level higher, at the cost of three nodes at most; given
  -- that the length fits a `u64` and the identifiers do not run out.
  pub rebalance-Runs :
      (l r : Tree) (s : State)
      → IsHeld s.arena l
      → IsHeld s.arena r
      → height_of l ≤ height_of r + 2
      → height_of r ≤ height_of l + 2
      → len_of l + len_of r ≤ u64_max
      → length s.arena.nodes + 3 ≤ none_node
      → Runs (rebalance (root_of l) (root_of r)) s (Rebalances s l r)
  unfolding rebalance
  rebalance-Runs l r s hl hr lo hi n room =
      elim (Bool-cases (leb (abs_diff (height_of l) (height_of r)) 1)) [
        | inl e ↦ rw e (
            Runs-imp _ _
              (branch-Runs l r s hl hr (omega (arith, leb→le _ _ e)) (omega (arith, leb→le _ _ e)) n
                (omega arith))
              (λ root u y.
                Yields-after (Grows-refl s.arena) refl (omega (arith, leb→le _ _ e)) (omega arith)
                  (omega arith) (omega arith) y))
        | inr e ↦ rw e (elim (Bool-cases (ltb (height_of r) (height_of l))) [
          | inl f ↦ rw f (
              Runs-imp _ _
                (rotate_left_high-Runs l r s hl hr (omega (arith, leb→lt _ _ e, ltb→lt _ _ f)) n
                  room)
                (λ root u y.
                  Yields-after (Grows-refl s.arena) refl (omega (arith, leb→lt _ _ e, ltb→lt _ _ f))
                    (omega (arith, ltb→lt _ _ f)) (omega arith) (omega arith) y))
          | inr f ↦ rw f (
              Runs-imp _ _
                (rotate_right_high-Runs l r s hl hr (omega (arith, leb→lt _ _ e, ltb→le _ _ f)) n
                  room)
                (λ root u y.
                  Yields-after (Grows-refl s.arena) refl (omega (arith, leb→lt _ _ e, ltb→le _ _ f))
                    (omega (arith, ltb→le _ _ f)) (omega arith) (omega arith) y))
        ])
      ]
