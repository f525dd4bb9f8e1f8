-- ===== src/Avl/RotateRight.antt =====
-- The half of `rebalance_on` for a right side that is too high by two.
use tulya_checkpoint_store.Prelude.{
  ℕ, ◌+◌, ◌≤◌, ◌<◌, ◌≡◌, refl, ◌++◌, arith, length, u64_max, inl, inr, Bool-cases, append_assoc,
  leb, leb→le, leb→lt,
}
use tulya_checkpoint_store.Format.Records.{Sha256, none_node}
use tulya_checkpoint_store.Avl.Action.{State, inspect, ◌>>=◌}
use tulya_checkpoint_store.Avl.Edit.{allocate_branch, branch_children, rotate_right_high}
use tulya_checkpoint_store.Avl.Tree.{
  Tree, leaf, branch, len_of, height_of, root_of, content, height_of-pos,
}
use tulya_checkpoint_store.Avl.Runs.{Runs, Runs-imp, Grows-refl}
use tulya_checkpoint_store.Avl.Alloc.{Yields, branch_children-Runs}
use tulya_checkpoint_store.Avl.Pieces.{
  IsHeld, IsHeld-left, IsHeld-right, Yields-after, left_nested-Runs, double-Runs,
}

module _ ⦃sha : Sha256⦄ where
  -- The double rotation where the inner child of the right side is the higher one.
  rotate_right_double :
      (i : ℕ) (l rl rr : Tree) (s : State)
      → IsHeld s.arena l
      → IsHeld s.arena (branch i rl rr)
      → height_of (branch i rl rr) ≡ height_of l + 2
      → height_of rr < height_of rl
      → len_of l + len_of (branch i rl rr) ≤ u64_max
      → length s.arena.nodes + 3 ≤ none_node
      → Runs
          (branch_children (root_of rl) >>= λ (middle_left, middle_right).
            allocate_branch (root_of l) middle_left >>= λ new_left.
            allocate_branch middle_right (root_of rr) >>= λ new_right.
            allocate_branch new_left new_right)
          s
          (Yields s 3 0
            (content l ++ content (branch i rl rr))
            (height_of (branch i rl rr))
            (height_of (branch i rl rr) + 1))
  rotate_right_double i l (leaf j offset bytes) rr s hl hr high inner n room =
      absurd (omega (arith, height_of-pos rr))
  rotate_right_double i l (branch j ml mr) rr s hl hr high inner n room =
      let h = IsHeld-left hr in
      branch_children-Runs j ml mr _ s h.balanced h.stored (
        Runs-imp _ _
          (double-Runs l ml mr rr (inspect 1 s).1 hl (IsHeld-left h) (IsHeld-right h)
            (IsHeld-right hr) (omega (arith, h.balanced, hr.balanced))
            (omega (arith, h.balanced, hr.balanced)) (omega (arith, h.balanced, hr.balanced))
            (omega (arith, h.balanced, hr.balanced)) (omega (arith, h.balanced, hr.balanced))
            (omega arith) room)
          (λ root u y.
            Yields-after (Grows-refl s.arena) (simp append_assoc)
              (omega (arith, h.balanced, hr.balanced)) (omega (arith, h.balanced, hr.balanced))
              (omega arith) (omega arith) y))

  pub rotate_right_high-Runs :
      (l r : Tree) (s : State)
      → IsHeld s.arena l
      → IsHeld s.arena r
      → height_of r ≡ height_of l + 2
      → len_of l + len_of r ≤ u64_max
      → length s.arena.nodes + 3 ≤ none_node
      → Runs
          (rotate_right_high (root_of l) (root_of r))
          s
          (Yields s 3 0 (content l ++ content r) (height_of r) (height_of r + 1))
  unfolding rotate_right_high
  rotate_right_high-Runs l (leaf i offset bytes) s hl hr high n room = absurd (omega arith)
  rotate_right_high-Runs l (branch i rl rr) s hl hr high n room =
      branch_children-Runs i rl rr _ s hr.balanced hr.stored
        (elim (Bool-cases (leb (height_of rl) (height_of rr))) [
          | inl e ↦ rw e (
              Runs-imp _ _
                (left_nested-Runs l rl rr (inspect 1 s).1 hl (IsHeld-left hr) (IsHeld-right hr)
                  (omega (arith, leb→le _ _ e, hr.balanced))
                  (omega (arith, leb→le _ _ e, hr.balanced))
                  (omega (arith, leb→le _ _ e, hr.balanced))
                  (omega (arith, leb→le _ _ e, hr.balanced)) (omega arith) (omega arith))
                (λ root u y.
                  Yields-after (Grows-refl s.arena)
                    (append_assoc (content l) (content rl) (content rr))
                    (omega (arith, leb→le _ _ e, hr.balanced))
                    (omega (arith, leb→le _ _ e, hr.balanced)) (omega arith) (omega arith) y))
          | inr e ↦ rw e (
              Runs-imp _ _
                (rotate_right_double i l rl rr (inspect 1 s).1 hl hr high (leb→lt _ _ e) n room)
                (λ root u y.
                  Yields-after (Grows-refl s.arena) refl (omega arith) (omega arith) (omega arith)
                    (omega arith) y))
        ])
