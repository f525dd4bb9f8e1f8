-- ===== src/Avl/Concat.antt =====
-- `concat_on`: the result is balanced, holds the bytes of both sides in order, and is as high as the
-- higher side or one level higher. The fuel of `concat` is enough.
use tulya_checkpoint_store.Prelude.{
  ℕ, zero, suc, ◌+◌, ◌*◌, ◌≤◌, ◌<◌, refl, sym, ap, ◌∙◌, max, ◌++◌, arith, length, u64_max, inl, inr,
  Bool-cases, append_assoc, ltb, ltb→lt, ltb→le,
}
use tulya_checkpoint_store.Format.Records.{Sha256, RootRecord, none_node}
use tulya_checkpoint_store.Avl.Action.{State, inspect, ◌>>=◌}
use tulya_checkpoint_store.Avl.Edit.{branch_children, rebalance, concat_on, concat, next_height}
use tulya_checkpoint_store.Avl.Tree.{
  Tree, leaf, branch, len_of, height_of, root_of, content, height_of-pos,
}
use tulya_checkpoint_store.Avl.Height.{height_of-le}
use tulya_checkpoint_store.Avl.Runs.{Runs, Runs-bind, Grows-refl, Grows-node_count}
use tulya_checkpoint_store.Avl.Alloc.{Yields, branch_children-Runs}
use tulya_checkpoint_store.Avl.Pieces.{
  IsHeld, Yields-IsHeld, IsHeld-Grows, len_of_join, IsHeld-left, IsHeld-right, Runs-settle,
  branch-Runs,
}
use tulya_checkpoint_store.Avl.Rebalance.{rebalance-Runs}

module _ ⦃sha : Sha256⦄ where
  -- Both sides in order; the height is that of the higher side, or one more.
  abbrev pub Joins : State → ℕ → Tree → Tree → RootRecord → State → Type 0
  Joins s cost l r =
      Yields s cost 0 (content l ++ content r) (max (height_of l) (height_of r))
        (max (height_of l) (height_of r) + 1)

  -- What an amount of fuel gives, for the calls on a child.
  abbrev Concats : ℕ → Type 0
  Concats fuel =
      (l r : Tree) (s : State)
      → IsHeld s.arena l
      → IsHeld s.arena r
      → height_of l + height_of r < fuel
      → len_of l + len_of r ≤ u64_max
      → length s.arena.nodes + 3 * (height_of l + height_of r) ≤ none_node
      → Runs (concat_on fuel (root_of l) (root_of r)) s
          (Joins s (3 * (height_of l + height_of r)) l r)

  concat_left-Runs :
      (fuel : ℕ)
      → Concats fuel
      → (l r : Tree) (s : State) → IsHeld s.arena l
      → IsHeld s.arena r
      → height_of r + 1 < height_of l
      → height_of l + height_of r < suc fuel
      → len_of l + len_of r ≤ u64_max
      → length s.arena.nodes + 3 * (height_of l + height_of r) ≤ none_node
      → Runs
          (branch_children (root_of l) >>= λ (left_left, left_right).
            concat_on fuel left_right (root_of r) >>= λ joined. rebalance left_left joined)
          s
          (Joins s (3 * (height_of l + height_of r)) l r)
  concat_left-Runs fuel rec (leaf i offset bytes) r s hl hr high enough n room =
      absurd (omega arith)
  concat_left-Runs fuel rec (branch i ll lr) r s hl hr high enough n room =
      branch_children-Runs i ll lr _ s hl.balanced hl.stored (
        Runs-bind _ _ (inspect 1 s).1
          (rec lr r (inspect 1 s).1 (IsHeld-right hl) hr (omega arith) (omega arith) (omega arith))
          (λ joined t y. rw (y.is_root) (
            Runs-settle _ y.grows
              (ap (λ b. content ll ++ b) y.bytes_eq
                ∙ sym (append_assoc (content ll) (content lr) (content r)))
              (omega (arith, y.not_low, y.not_high, hl.balanced))
              (omega (arith, y.not_low, y.not_high, hl.balanced)) (omega arith) (omega arith)
              (rebalance-Runs ll y.tree t (IsHeld-Grows y.grows ll (IsHeld-left hl))
                (Yields-IsHeld y) (omega (arith, y.not_low, y.not_high, hl.balanced))
                (omega (arith, y.not_low, y.not_high, hl.balanced))
                (omega (arith, len_of_join y.tree lr r y.bytes_eq))
                (omega (arith, Grows-node_count y.grows))))))

  concat_right-Runs :
      (fuel : ℕ)
      → Concats fuel
      → (l r : Tree) (s : State) → IsHeld s.arena l
      → IsHeld s.arena r
      → height_of l + 1 < height_of r
      → height_of l + height_of r < suc fuel
      → len_of l + len_of r ≤ u64_max
      → length s.arena.nodes + 3 * (height_of l + height_of r) ≤ none_node
      → Runs
          (branch_children (root_of r) >>= λ (right_left, right_right).
            concat_on fuel (root_of l) right_left >>= λ joined. rebalance joined right_right)
          s
          (Joins s (3 * (height_of l + height_of r)) l r)
  concat_right-Runs fuel rec l (leaf i offset bytes) s hl hr high enough n room =
      absurd (omega arith)
  concat_right-Runs fuel rec l (branch i rl rr) s hl hr high enough n room =
      branch_children-Runs i rl rr _ s hr.balanced hr.stored (
        Runs-bind _ _ (inspect 1 s).1
          (rec l rl (inspect 1 s).1 hl (IsHeld-left hr) (omega arith) (omega arith) (omega arith))
          (λ joined t y. rw (y.is_root) (
            Runs-settle _ y.grows
              (ap (λ b. b ++ content rr) y.bytes_eq
                ∙ append_assoc (content l) (content rl) (content rr))
              (omega (arith, y.not_low, y.not_high, hr.balanced))
              (omega (arith, y.not_low, y.not_high, hr.balanced)) (omega arith) (omega arith)
              (rebalance-Runs y.tree rr t (Yields-IsHeld y)
                (IsHeld-Grows y.grows rr (IsHeld-right hr))
                (omega (arith, y.not_low, y.not_high, hr.balanced))
                (omega (arith, y.not_low, y.not_high, hr.balanced))
                (omega (arith, len_of_join y.tree l rl y.bytes_eq))
                (omega (arith, Grows-node_count y.grows))))))

  concat_on-Runs : (fuel : ℕ) → Concats fuel
  unfolding concat_on
  concat_on-Runs zero l r s hl hr enough n room = absurd (omega arith)
  concat_on-Runs (suc fuel) l r s hl hr enough n room =
      let low_l = height_of-le l hl.balanced (omega arith) in
      let low_r = height_of-le r hr.balanced (omega arith) in
      elim (Bool-cases (ltb (next_height (height_of r)) (height_of l))) [
        | inl e ↦ rw e (
            concat_left-Runs fuel (concat_on-Runs fuel) l r s hl hr (omega (arith, ltb→lt _ _ e))
              enough n room)
        | inr e ↦ rw e (elim (Bool-cases (ltb (next_height (height_of l)) (height_of r))) [
          | inl f ↦ rw f (
              concat_right-Runs fuel (concat_on-Runs fuel) l r s hl hr (omega (arith, ltb→lt _ _ f))
                enough n room)
          | inr f ↦ rw f (
              Runs-settle _ (Grows-refl s.arena) refl (omega arith) (omega arith)
                (omega (arith, height_of-pos l)) (omega arith)
                (branch-Runs l r s hl hr (omega (arith, ltb→le _ _ e)) (omega (arith, ltb→le _ _ f))
                  n (omega (arith, height_of-pos l))))
        ])
      ]

  -- Concatenation of two balanced trees that the arena holds succeeds: the root is that of a
  -- balanced tree with the bytes of both in order, as high as the higher one or one level higher,
  -- at the cost of three nodes for each level of the two at most; given that the length fits a
  -- `u64` and the identifiers do not run out.
  pub concat-Runs :
      (l r : Tree) (s : State)
      → IsHeld s.arena l
      → IsHeld s.arena r
      → len_of l + len_of r ≤ u64_max
      → length s.arena.nodes + 3 * (height_of l + height_of r) ≤ none_node
      → Runs (concat (root_of l) (root_of r)) s (Joins s (3 * (height_of l + height_of r)) l r)
  unfolding concat
  concat-Runs l r s hl hr n room =
      concat_on-Runs (suc (height_of l + height_of r)) l r s hl hr (omega arith) n room
