-- ===== src/Avl/Split.antt =====
-- `split_on`: the two sides hold the bytes before and from the offset, and neither is higher than
-- the tree. The fuel of `split` is enough.
use tulya_checkpoint_store.Prelude.{
  ℕ, zero, suc, ◌+◌, ◌≤◌, ◌<◌, arith, length, u64_max, inl, inr, Bool-cases, ltb, ◌==◌, ltb→lt,
  ltb→le, le→ltb, ==_iff,
}
use tulya_checkpoint_store.Format.Records.{Sha256, none_node, max_leaf_payload_bytes}
use tulya_checkpoint_store.Avl.Action.{State, inspect}
use tulya_checkpoint_store.Avl.Edit.{split_node, split_on, split}
use tulya_checkpoint_store.Avl.Tree.{
  Tree, leaf, branch, len_of, height_of, root_of, node_of, height_of-pos,
}
use tulya_checkpoint_store.Avl.Held.{node_for_root_held, validate_held}
use tulya_checkpoint_store.Avl.Runs.{
  Runs, Runs-pure, Runs-reading, Runs-inspect, Runs-imp, Grows-refl,
}
use tulya_checkpoint_store.Avl.Pieces.{IsHeld}
use tulya_checkpoint_store.Avl.Sides.{Splits, Splits-cheaper, at_start, at_end, between}
use tulya_checkpoint_store.Avl.Cuts.{
  split_cost, Cuts, split_leaf-Runs, cut_left-Runs, cut_right-Runs,
}

module _ ⦃sha : Sha256⦄ where
  split_node-Runs :
      (fuel : ℕ)
      → Cuts fuel
      → (t : Tree) (s : State) (offset : ℕ) → IsHeld s.arena t
      → 0 < offset
      → offset < len_of t
      → height_of t ≤ suc fuel
      → len_of t ≤ u64_max
      → length s.arena.payload + max_leaf_payload_bytes ≤ u64_max
      → length s.arena.nodes + split_cost (height_of t) ≤ none_node
      → Runs
          (split_node (split_on fuel) (node_of t) offset)
          s
          (Splits s (split_cost (height_of t)) max_leaf_payload_bytes offset t)
  unfolding split_node
  split_node-Runs fuel rec (leaf i start bytes) s offset h pos inside enough n small room =
      Runs-imp _ _
        (split_leaf-Runs i start bytes s offset h pos inside (omega (arith, h.balanced))
          (omega arith))
        (λ sides t c. Splits-cheaper (Grows-refl s.arena) (omega arith) c)
  split_node-Runs fuel rec (branch i l r) s offset h pos inside enough n small room =
      elim (Bool-cases (ltb offset (len_of l))) [
        | inl e ↦ rw e (cut_left-Runs fuel rec i l r s offset h (ltb→lt _ _ e) enough n small room)
        | inr e ↦ rw e (elim (Bool-cases (offset == len_of l)) [
          | inl f ↦ rw f (
              Runs-pure _ s (
                Splits-cheaper (Grows-refl s.arena) (omega arith)
                  (between i l r s offset ((==_iff _ _).0 f) h)))
          | inr f ↦ rw f (
              cut_right-Runs fuel rec i l r s offset h (ltb→le _ _ e) (omega arith) enough n small
                room)
        ])
      ]

  split_on-Runs : (fuel : ℕ) → Cuts fuel
  unfolding split_on
  split_on-Runs zero t s offset h within enough n small room =
      absurd (omega (arith, height_of-pos t))
  split_on-Runs (suc fuel) t s offset h within enough n small room =
      rw (le→ltb (len_of t) offset within) (elim (Bool-cases (offset == 0)) [
        | inl e ↦ rw e (
            Runs-pure _ s (
              Splits-cheaper (Grows-refl s.arena) (omega arith)
                (at_start t s offset ((==_iff _ _).0 e) h)))
        | inr e ↦ rw e (elim (Bool-cases (offset == len_of t)) [
          | inl f ↦ rw f (
              Runs-pure _ s (
                Splits-cheaper (Grows-refl s.arena) (omega arith)
                  (at_end t s offset ((==_iff _ _).0 f) h)))
          | inr f ↦ rw f (
              Runs-inspect _ _ s (
                Runs-reading _ _ _ (node_for_root_held s.arena t h.balanced h.stored) (
                  Runs-reading _ _ _ (validate_held s.arena t h.balanced h.stored n) (
                    Runs-imp _ _
                      (split_node-Runs fuel (split_on-Runs fuel) t (inspect 1 s).1 offset h
                        (ground (arith, e)) (ground (arith, f)) enough n small room)
                      (λ sides u c. Splits-cheaper (Grows-refl s.arena) (omega arith) c)))))
        ])
      ])

  -- A cut of a held tree at an offset within it succeeds: the sides hold the bytes before and from
  -- the offset, each balanced and no higher than the tree, at the cost of a concatenation a level;
  -- given that the length fits a `u64`, and identifiers and payload do not run out.
  pub split-Runs :
      (t : Tree) (s : State) (offset : ℕ)
      → IsHeld s.arena t
      → offset ≤ len_of t
      → len_of t ≤ u64_max
      → length s.arena.payload + max_leaf_payload_bytes ≤ u64_max
      → length s.arena.nodes + split_cost (height_of t) ≤ none_node
      → Runs
          (split (root_of t) offset)
          s
          (Splits s (split_cost (height_of t)) max_leaf_payload_bytes offset t)
  unfolding split
  split-Runs t s offset h within n small room =
      split_on-Runs (suc (height_of t)) t s offset h within (omega arith) n small room
