-- ===== src/Avl/RotateLeft.antt =====
-- The half of `rebalance_on` for a left side that is too high by two.
use tulya_checkpoint_store.Prelude.{
  ℕ, ◌+◌, ◌≤◌, ◌<◌, ◌≡◌, refl, sym, ◌++◌, arith, length, u64_max, inl, inr, Bool-cases,
  append_assoc, leb, leb→le, leb→lt,
}
use tulya_checkpoint_store.Format.Records.{Sha256, none_node}
use tulya_checkpoint_store.Avl.Action.{State, inspect, ◌>>=◌}
use tulya_checkpoint_store.Avl.Edit.{allocate_branch, branch_children, rotate_left_high}
use tulya_checkpoint_store.Avl.Tree.{
  Tree, leaf, branch, len_of, height_of, root_of, content, height_of-pos,
}
use tulya_checkpoint_store.Avl.Runs.{Runs, Runs-imp, Grows-refl}
use tulya_checkpoint_store.Avl.Alloc.{Yields, branch_children-Runs}
use tulya_checkpoint_store.Avl.Pieces.{
  IsHeld, IsHeld-left, IsHeld-right, Yields-after, right_nested-Runs, double-Runs,
}

module _ ⦃sha : Sha256⦄ where
  -- The double rotation where the inner child of the left side is the higher one.
  rotate_left_double :
      (i : ℕ) (ll lr r : Tree) (s : State)
      → IsHeld s.arena (branch i ll lr)
      → IsHeld s.arena r
      → height_of (branch i ll lr) ≡ height_of r + 2
      → height_of ll < height_of lr
      → len_of (branch i ll lr) + len_of r ≤ u64_max
      → length s.arena.nodes + 3 ≤ none_node
      → Runs
          (branch_children (root_of lr) >>= λ (middle_left, middle_right).
            allocate_branch (root_of ll) middle_left >>= λ new_left.
            allocate_branch middle_right (root_of r) >>= λ new_right.
            allocate_branch new_left new_right)
          s
          (Yields s 3 0
            (content (branch i ll lr) ++ content r)
            (height_of (branch i ll lr))
            (height_of (branch i ll lr) + 1))
  rotate_left_double i ll (leaf j offset bytes) r s hl hr high inner n room =
      absurd (omega (arith, height_of-pos ll))
  rotate_left_double i ll (branch j ml mr) r s hl hr high inner n room =
      let h = IsHeld-right hl in
      branch_children-Runs j ml mr _ s h.balanced h.stored (
        Runs-imp _ _
          (double-Runs ll ml mr r (inspect 1 s).1 (IsHeld-left hl) (IsHeld-left h) (IsHeld-right h)
            hr (omega (arith, h.balanced, hl.balanced)) (omega (arith, h.balanced, hl.balanced))
            (omega (arith, h.balanced, hl.balanced)) (omega (arith, h.balanced, hl.balanced))
            (omega (arith, h.balanced, hl.balanced)) (omega arith) room)
          (λ root u y.
            Yields-after (Grows-refl s.arena) (simp append_assoc)
              (omega (arith, h.balanced, hl.balanced)) (omega (arith, h.balanced, hl.balanced))
              (omega arith) (omega arith) y))

  pub rotate_left_high-Runs :
      (l r : Tree) (s : State)
      → IsHeld s.arena l
      → IsHeld s.arena r
      → height_of l ≡ height_of r + 2
      → len_of l + len_of r ≤ u64_max
      → length s.arena.nodes + 3 ≤ none_node
      → Runs
          (rotate_left_high (root_of l) (root_of r))
          s
          (Yields s 3 0 (content l ++ content r) (height_of l) (height_of l + 1))
  unfolding rotate_left_high
  rotate_left_high-Runs (leaf i offset bytes) r s hl hr high n room = absurd (omega arith)
  rotate_left_high-Runs (branch i ll lr) r s hl hr high n room =
      branch_children-Runs i ll lr _ s hl.balanced hl.stored
        (elim (Bool-cases (leb (height_of lr) (height_of ll))) [
          | inl e ↦ rw e (
              Runs-imp _ _
                (right_nested-Runs ll lr r (inspect 1 s).1 (IsHeld-left hl) (IsHeld-right hl) hr
                  (omega (arith, leb→le _ _ e, hl.balanced))
                  (omega (arith, leb→le _ _ e, hl.balanced))
                  (omega (arith, leb→le _ _ e, hl.balanced))
                  (omega (arith, leb→le _ _ e, hl.balanced)) (omega arith) (omega arith))
                (λ root u y.
                  Yields-after (Grows-refl s.arena)
                    (sym (append_assoc (content ll) (content lr) (content r)))
                    (omega (arith, leb→le _ _ e, hl.balanced))
                    (omega (arith, leb→le _ _ e, hl.balanced)) (omega arith) (omega arith) y))
          | inr e ↦ rw e (
              Runs-imp _ _
                (rotate_left_double i ll lr r (inspect 1 s).1 hl hr high (leb→lt _ _ e) n room)
                (λ root u y.
                  Yields-after (Grows-refl s.arena) refl (omega arith) (omega arith) (omega arith)
                    (omega arith) y))
        ])
