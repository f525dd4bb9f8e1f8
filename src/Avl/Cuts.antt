-- ===== src/Avl/Cuts.antt =====
-- The steps of `split_on` at a leaf, and at a branch whose left or right child is cut.
use tulya_checkpoint_store.Prelude.{
  ℕ, suc, ◌+◌, ◌-◌, ◌*◌, ◌≤◌, ◌<◌, ◌≡◌, sym, ap, ◌∙◌, some, List, ◌++◌, arith, length, take, drop,
  u64_max, slice_prefix, slice_suffix, length-take, length-drop, take-append_left, drop-append_left,
  take-append_right, drop-append_right,
}
use tulya_checkpoint_store.Format.Records.{Sha256, none_node, max_leaf_payload_bytes}
use tulya_checkpoint_store.Avl.Action.{State, pure, ◌>>=◌}
use tulya_checkpoint_store.Avl.Edit.{split_leaf, join_near_right, join_left_near, split_on}
use tulya_checkpoint_store.Avl.Tree.{
  Tree, leaf, branch, len_of, height_of, root_of, content, len_of-eq,
}
use tulya_checkpoint_store.Avl.Height.{height_of-le}
use tulya_checkpoint_store.Avl.Held.{read_held}
use tulya_checkpoint_store.Avl.Runs.{
  Runs, Runs-bind, Runs-pure, Runs-lift, Runs-reading, Grows-trans, Grows-weaken, Grows-node_count,
  Grows-byte_count,
}
use tulya_checkpoint_store.Avl.Alloc.{allocate_leaf-Runs, try_from_fits}
use tulya_checkpoint_store.Avl.Pieces.{
  IsHeld, Yields-IsHeld, IsHeld-Grows, IsHeld-left, IsHeld-right,
}
use tulya_checkpoint_store.Avl.Sides.{
  IsHeld?-Grows, Splits, join_near_right-Runs, join_left_near-Runs,
}

-- The nodes that a split allocates at most: a concatenation at each level, and two leaves.
abbrev pub split_cost : ℕ → ℕ
split_cost height = 768 * height + 2

module _ ⦃sha : Sha256⦄ where
  pub split_leaf-Runs :
      (i payload_offset : ℕ) (bytes : List ℕ) (s : State) (offset : ℕ)
      → IsHeld s.arena (leaf i payload_offset bytes)
      → 0 < offset
      → offset < length bytes
      → length s.arena.payload + length bytes ≤ u64_max
      → length s.arena.nodes + 2 ≤ none_node
      → Runs
          (split_leaf payload_offset (length bytes) offset)
          s
          (Splits s 2 max_leaf_payload_bytes offset (leaf i payload_offset bytes))
  unfolding split_leaf
  split_leaf-Runs i start bytes s offset h pos inside small room =
      let left_size : length (take offset bytes) ≡ offset =
        omega (arith, length-take {0} offset bytes) in
      let right_size : length (drop offset bytes) ≡ length bytes - offset =
        omega (arith, length-drop {0} offset bytes) in
      Runs-lift _ _ s (try_from_fits u64_max (start + offset) _ (omega (arith, h.balanced))) (
        Runs-lift _ _ s (try_from_fits u64_max (start + length bytes) _ (omega (arith, h.balanced)))
          (Runs-reading _ _ s
            (read_held s.arena start (start + offset)
              (slice_prefix s.arena.payload start (length bytes) offset h.stored.1 (omega arith)))
            (Runs-reading _ _ s
              (read_held s.arena (start + offset) (start + length bytes)
                (slice_suffix s.arena.payload start (length bytes) offset h.stored.1 (omega arith)))
              (Runs-bind _ _ s
                (allocate_leaf-Runs (take offset bytes) s (omega arith) (omega (arith, h.balanced))
                  (omega arith) (omega arith))
                (λ l t y.
                  Runs-bind _ _ t
                    (allocate_leaf-Runs (drop offset bytes) t (omega arith)
                      (omega (arith, h.balanced)) (omega (arith, Grows-byte_count y.grows))
                      (omega (arith, Grows-node_count y.grows)))
                    (λ r u z. Runs-pure _ u (record {
                      left = some y.tree;
                      right = some z.tree;
                      are_roots = cc (y.is_root, z.is_root);
                      left_held = IsHeld-Grows z.grows y.tree (Yields-IsHeld y);
                      right_held = Yields-IsHeld z;
                      left_bytes = y.bytes_eq;
                      right_bytes = z.bytes_eq;
                      left_not_high = y.not_high;
                      right_not_high = z.not_high;
                      grows =
                          Grows-weaken (omega arith) (omega (arith, h.balanced))
                            (Grows-trans y.grows z.grows);
                    })))))))

  -- What an amount of fuel gives, for the calls on a child.
  abbrev pub Cuts : ℕ → Type 0
  Cuts fuel =
      (t : Tree) (s : State) (offset : ℕ)
      → IsHeld s.arena t
      → offset ≤ len_of t
      → height_of t ≤ fuel
      → len_of t ≤ u64_max
      → length s.arena.payload + max_leaf_payload_bytes ≤ u64_max
      → length s.arena.nodes + split_cost (height_of t) ≤ none_node
      → Runs (split_on fuel (root_of t) offset) s
          (Splits s (split_cost (height_of t)) max_leaf_payload_bytes offset t)

  pub cut_left-Runs :
      (fuel : ℕ)
      → Cuts fuel
      → (i : ℕ) (l r : Tree) (s : State) (offset : ℕ) → IsHeld s.arena (branch i l r)
      → offset < len_of l
      → height_of (branch i l r) ≤ suc fuel
      → len_of l + len_of r ≤ u64_max
      → length s.arena.payload + max_leaf_payload_bytes ≤ u64_max
      → length s.arena.nodes + split_cost (height_of (branch i l r)) ≤ none_node
      → Runs
          (split_on fuel (root_of l) offset >>= λ (far_left, near).
            join_near_right near (root_of r) >>= λ joined_right. pure (far_left, some joined_right))
          s
          (Splits s
            (split_cost (height_of (branch i l r)))
            max_leaf_payload_bytes
            offset
            (branch i l r))
  cut_left-Runs fuel rec i l r s offset h inside enough n small room =
      let low = height_of-le (branch i l r) h.balanced n in
      Runs-bind _ _ s
        (rec l s offset (IsHeld-left h) (omega arith) (omega arith) (omega arith) small
          (omega arith))
        (λ sides t c. rw (c.are_roots) (
          Runs-bind _ _ t
            (join_near_right-Runs c.right r t c.right_held (IsHeld-Grows c.grows r (IsHeld-right h))
              (omega
                (arith, ap length c.right_bytes, length-drop {0} offset (content l), len_of-eq l))
              (omega (arith, c.right_not_high, Grows-node_count c.grows)))
            (λ j u y. Runs-pure _ u (record {
              left = c.left;
              right = some y.tree;
              are_roots = cc (y.is_root);
              left_held = IsHeld?-Grows y.grows c.left c.left_held;
              right_held = Yields-IsHeld y;
              left_bytes =
                  c.left_bytes
                  ∙ sym (
                      take-append_left offset (content l) (content r) (omega (arith, len_of-eq l)));
              right_bytes =
                  y.bytes_eq
                  ∙ ap (λ b. b ++ content r) c.right_bytes
                  ∙ sym (
                      drop-append_left offset (content l) (content r) (omega (arith, len_of-eq l)));
              left_not_high = omega (arith, c.left_not_high);
              right_not_high = omega (arith, c.right_not_high, y.not_high);
              grows =
                  Grows-weaken (omega (arith, c.right_not_high)) (omega arith)
                    (Grows-trans c.grows y.grows);
            }))))

  pub cut_right-Runs :
      (fuel : ℕ)
      → Cuts fuel
      → (i : ℕ) (l r : Tree) (s : State) (offset : ℕ) → IsHeld s.arena (branch i l r)
      → len_of l ≤ offset
      → offset ≤ len_of l + len_of r
      → height_of (branch i l r) ≤ suc fuel
      → len_of l + len_of r ≤ u64_max
      → length s.arena.payload + max_leaf_payload_bytes ≤ u64_max
      → length s.arena.nodes + split_cost (height_of (branch i l r)) ≤ none_node
      → Runs
          (split_on fuel (root_of r) (offset - len_of l) >>= λ (near, far_right).
            join_left_near (root_of l) near >>= λ joined_left. pure (some joined_left, far_right))
          s
          (Splits s
            (split_cost (height_of (branch i l r)))
            max_leaf_payload_bytes
            offset
            (branch i l r))
  cut_right-Runs fuel rec i l r s offset h beyond within enough n small room =
      let low = height_of-le (branch i l r) h.balanced n in
      let k : ℕ = offset - len_of l in
      let at : offset ≡ length (content l) + k = omega (arith, len_of-eq l) in
      Runs-bind _ _ s
        (rec r s k (IsHeld-right h) (omega arith) (omega arith) (omega arith) small (omega arith))
        (λ sides t c. rw (c.are_roots) (
          Runs-bind _ _ t
            (join_left_near-Runs l c.left t (IsHeld-Grows c.grows l (IsHeld-left h)) c.left_held
              (omega (arith, ap length c.left_bytes, length-take {0} k (content r), len_of-eq r))
              (omega (arith, c.left_not_high, Grows-node_count c.grows)))
            (λ j u y. Runs-pure _ u (record {
              left = some y.tree;
              right = c.right;
              are_roots = cc (y.is_root);
              left_held = Yields-IsHeld y;
              right_held = IsHeld?-Grows y.grows c.right c.right_held;
              left_bytes =
                  y.bytes_eq
                  ∙ ap (λ b. content l ++ b) c.left_bytes
                  ∙ sym (take-append_right k (content l) (content r))
                  ∙ ap (λ m. take m (content l ++ content r)) (sym at);
              right_bytes =
                  c.right_bytes
                  ∙ sym (drop-append_right k (content l) (content r))
                  ∙ ap (λ m. drop m (content l ++ content r)) (sym at);
              left_not_high = omega (arith, c.left_not_high, y.not_high);
              right_not_high = omega (arith, c.right_not_high);
              grows =
                  Grows-weaken (omega (arith, c.left_not_high)) (omega arith)
                    (Grows-trans c.grows y.grows);
            }))))
