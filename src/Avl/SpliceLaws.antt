-- ===== src/Avl/SpliceLaws.antt =====
-- `splice_on` as a whole, against the edit of a list of bytes.
use tulya_checkpoint_store.Prelude.{
  ℕ, ◌+◌, ◌-◌, ◌*◌, ◌≤◌, ◌<◌, ◌≡◌, ap, ◌∙◌, List, Option, arith, length, u64_max, ok, length-append,
}
use tulya_checkpoint_store.Format.Records.{Sha256, RootRecord, none_node, max_leaf_payload_bytes}
use tulya_checkpoint_store.Avl.Arena.{Arena}
use tulya_checkpoint_store.Avl.Action.{State}
use tulya_checkpoint_store.Avl.Splice.{SpliceResult, splice, splice_inner, finish_splice}
use tulya_checkpoint_store.Avl.Tree.{Tree, content, height_of, root_of, Grows}
use tulya_checkpoint_store.Avl.Height.{max_height}
use tulya_checkpoint_store.Avl.Runs.{
  Runs, Runs-bind, Grows-trans, Grows-weaken, Grows-node_count, Grows-byte_count,
}
use tulya_checkpoint_store.Avl.Alloc.{Yields}
use tulya_checkpoint_store.Avl.Pieces.{IsHeld}
use tulya_checkpoint_store.Avl.Sides.{content?, root?, IsHeld?, IsHeld?-Grows}
use tulya_checkpoint_store.Avl.Insert.{build_middle-Runs}
use tulya_checkpoint_store.Avl.SpliceChecks.{
  edit, length-edit, check_splice_succeeds, splice_cost, splice_root?-Runs, root_or-Runs,
}

module _ ⦃sha : Sha256⦄ where
  splice_inner-Runs :
      (parent : Option Tree) (offset delete_len : ℕ) (insert : List ℕ) (s : State)
      → IsHeld? s.arena parent
      → offset + delete_len ≤ length (content? parent)
      → length (content? parent) ≤ u64_max
      → 0 < length (content? parent) - delete_len + length insert
      → length (content? parent) - delete_len + length insert ≤ u64_max
      → length s.arena.payload + length insert + 2 * max_leaf_payload_bytes ≤ u64_max
      → length s.arena.nodes + splice_cost insert ≤ none_node
      → Runs (splice_inner (root? parent) offset delete_len insert) s (
          Yields s
            (splice_cost insert)
            (length insert + 2 * max_leaf_payload_bytes)
            (edit (content? parent) offset delete_len insert)
            0
            max_height)
  unfolding splice_inner
  splice_inner-Runs parent offset delete_len insert s held within n some_left fits small room =
      Runs-bind _ _ s (build_middle-Runs insert s (omega arith) (omega arith)) (λ middle t y.
        rw (y.is_root) (
          Runs-bind _ _ t
            (splice_root?-Runs y.tree parent offset delete_len t y.held y.not_high
              (IsHeld?-Grows y.grows parent held) within n (omega (arith, ap length y.bytes_eq))
              (omega (arith, Grows-byte_count y.grows)) (omega (arith, Grows-node_count y.grows)))
            (λ root u z.
              let bytes = z.bytes_eq ∙ ap (edit (content? parent) offset delete_len) y.bytes_eq in
              rw (z.is_root) (
                root_or-Runs (root? parent) z.tree u z.held bytes
                  (omega (arith, length-edit (content? parent) offset delete_len insert within))
                  z.not_high
                  (Grows-weaken (omega arith) (omega arith) (Grows-trans y.grows z.grows))))))

  -- What a splice reports and leaves: the root of a balanced tree, held by the new arena, with the
  -- given bytes; an arena that only grew; and the counts of what was allocated.
  pub record Spliced (before : Arena) (insert bytes : List ℕ) (result : SpliceResult)
      (after : Arena) : Type 0 where
    pub tree : Tree
    pub is_root : result.root ≡ root_of tree
    pub held : IsHeld after tree
    pub bytes_eq : content tree ≡ bytes
    pub not_high : height_of tree ≤ max_height
    pub grows : Grows before after (splice_cost insert) (length insert + 2 * max_leaf_payload_bytes)
    pub node_count : length after.nodes ≡ length before.nodes + result.allocated_nodes
    pub byte_count : length after.payload ≡ length before.payload + result.payload_bytes_allocated

  spliced :
      (arena : Arena) (insert bytes : List ℕ) (root : RootRecord) (u : State)
      → Yields
          (record { arena = arena; inspected = 0 })
          (splice_cost insert)
          (length insert + 2 * max_leaf_payload_bytes)
          bytes
          0
          max_height
          root
          u
      → Spliced arena insert bytes
          (record {
            root = root;
            allocated_nodes = length u.arena.nodes - length arena.nodes;
            inspected_nodes = u.inspected;
            payload_bytes_allocated = length u.arena.payload - length arena.payload;
          })
          u.arena
  spliced arena insert bytes root u y = record {
    tree = y.tree;
    is_root = y.is_root;
    held = record { balanced = y.balanced; stored = y.stored };
    bytes_eq = y.bytes_eq;
    not_high = y.not_high;
    grows = y.grows;
    node_count =
        omega (arith, ap length y.grows.nodes, length-append {0} arena.nodes y.grows.new_nodes);
    byte_count =
        omega
          (arith, ap length y.grows.payload, length-append {0} arena.payload y.grows.new_payload);
  }

  -- A splice with a held parent, or with none, at a range within it, which has an effect and leaves
  -- some byte, succeeds: the result is the root of a balanced tree with the edited bytes, the old
  -- nodes and payload stay where they were, and the counts are those of what was added; given that
  -- the lengths fit a `u64` and that identifiers and payload have room.
  pub splice-edit :
      (arena : Arena) (parent : Option Tree) (offset delete_len : ℕ) (insert : List ℕ)
      → IsHeld? arena parent
      → offset + delete_len ≤ length (content? parent)
      → length (content? parent) ≤ u64_max
      → 0 < delete_len + length insert
      → 0 < length (content? parent) - delete_len + length insert
      → length (content? parent) - delete_len + length insert ≤ u64_max
      → length arena.payload + length insert + 2 * max_leaf_payload_bytes ≤ u64_max
      → length arena.nodes + splice_cost insert ≤ none_node
      → (result : SpliceResult) × (after : Arena) × (splice arena
            (root? parent)
            offset
            delete_len
            insert
          ≡ (ok result, after))
        × Spliced arena insert (edit (content? parent) offset delete_len insert) result after
  unfolding splice finish_splice
  splice-edit arena parent offset delete_len insert held within n effect some_left fits small room =
      let checked =
        check_splice_succeeds arena parent offset delete_len insert held within n effect some_left
          fits in
      let r =
        splice_inner-Runs parent offset delete_len insert (record { arena = arena; inspected = 0 })
          held within n some_left fits small room in
      (
        _,
        r.after.arena,
        rw (checked, splice) (rw (r.run)),
        spliced arena insert _ r.value r.after r.post,
      )
