-- ===== src/Avl/Held.antt =====
-- The checks and constructors succeed on a balanced tree that the arena holds.
use mathlib.Core.Bool.{decide_iff}
use tulya_checkpoint_store.Prelude
use tulya_checkpoint_store.Prelude.{
  ℕ, ◌+◌, ◌≤◌, ◌<◌, ◌≡◌, refl, max, List, arith, length, true, false, u64_max, ok, map_err, ne→==,
  slice, slice, reject, get_elem?, some,
}
use tulya_checkpoint_store.Format.Records.{
  Sha256, RootRecord, NodeRecord, RootRecord-discrete, NodeRecord-discrete,
}
use tulya_checkpoint_store.Format.Build
use tulya_checkpoint_store.Format.Build.{from_node, validate_child_root}
use tulya_checkpoint_store.Avl.Arena.{
  Arena, format, record_of, same_root, same_node, node_for_root, validate_node, arena_load_node,
  arena_read_payload,
}
use tulya_checkpoint_store.Avl.Tree.{
  Tree, leaf, branch, id_of, len_of, root_of, record_of_tree, node_of, IsBalanced, Stored,
  len_of-pos, height_of-pos, id_of-lt,
}
use tulya_checkpoint_store.Avl.Height.{height_of-le}

same_root_refl : (r : RootRecord) → same_root r r ≡ true
unfolding same_root
same_root_refl r = (decide_iff (RootRecord-discrete r r)).1 refl

same_node_refl : (r : NodeRecord) → same_node r r ≡ true
unfolding same_node
same_node_refl r = (decide_iff (NodeRecord-discrete r r)).1 refl

pub read_held :
    (a : Arena) (s e : ℕ) {bytes : List ℕ}
    → slice a.payload s e ≡ some bytes
    → arena_read_payload a s e ≡ ok bytes
unfolding arena_read_payload
read_held a s e h = rw (h, arena_read_payload)

module _ ⦃sha : Sha256⦄ where
  pub leaf_succeeds :
      (i offset : ℕ) (bytes : List ℕ)
      → IsBalanced (leaf i offset bytes)
      → Build.leaf offset bytes ≡ ok (record_of_tree (leaf i offset bytes))
  unfolding Build.leaf
  leaf_succeeds i offset bytes b = ground arith

  validate_child_succeeds : (t : Tree) → IsBalanced t → validate_child_root (root_of t) ≡ ok tt
  unfolding validate_child_root
  validate_child_succeeds t b = ground (arith, id_of-lt t b, len_of-pos t b, height_of-pos t)

  pub branch_succeeds :
      (i : ℕ) (l r : Tree)
      → IsBalanced (branch i l r)
      → len_of l + len_of r ≤ u64_max
      → Build.branch (root_of l) (root_of r) ≡ ok (record_of_tree (branch i l r))
  unfolding Build.branch
  branch_succeeds i l r b h =
      rw (validate_child_succeeds l b.3, validate_child_succeeds r b.4)
        (ground (arith, height_of-le l b.3 (omega arith), height_of-le r b.4 (omega arith)))

  from_node_succeeds :
      (t : Tree) → IsBalanced t → from_node (id_of t) (record_of_tree t) ≡ ok (root_of t)
  unfolding from_node
  from_node_succeeds (leaf i offset bytes) b = ground arith
  from_node_succeeds (branch i l r) b = ground arith

  pub root_of_new :
      (t : Tree)
      → IsBalanced t
      → map_err format (from_node (id_of t) (record_of (node_of t))) ≡ ok (root_of t)
  root_of_new (leaf i offset bytes) b = rw (from_node_succeeds (leaf i offset bytes) b)
  root_of_new (branch i l r) b = rw (from_node_succeeds (branch i l r) b)

  load_held : (a : Arena) (t : Tree) → Stored a t → arena_load_node a (id_of t) ≡ ok (node_of t)
  unfolding arena_load_node
  load_held a (leaf i offset bytes) h = rw (h.0, arena_load_node)
  load_held a (branch i l r) h = rw (h.0, arena_load_node)

  -- Every traversal accepts the root of a tree that the arena holds, and finds its node.
  pub node_for_root_held :
      (a : Arena) (t : Tree)
      → IsBalanced t
      → Stored a t
      → node_for_root a (root_of t) ≡ ok (node_of t)
  unfolding node_for_root
  node_for_root_held a t b h =
      rw (load_held a t h) (rw (root_of_new t b) (rw (same_root_refl (root_of t))))

  -- The recomputation of a node from its bytes or its children finds nothing wrong.
  pub validate_held :
      (a : Arena) (t : Tree)
      → IsBalanced t
      → Stored a t
      → len_of t ≤ u64_max
      → validate_node a (node_of t) ≡ ok tt
  unfolding validate_node
  validate_held a (leaf i offset bytes) b h n =
      rw (Prelude.le→leb (offset + length bytes) u64_max b.3) (
        rw (read_held a offset (offset + length bytes) h.1) (
          rw (leaf_succeeds i offset bytes b)
            (rw (same_node_refl (record_of_tree (leaf i offset bytes))))))
  validate_held a (branch i l r) b h n =
      rw (branch_succeeds i l r b n) (rw (same_node_refl (record_of_tree (branch i l r))))
