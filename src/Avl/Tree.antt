-- ===== src/Avl/Tree.antt =====
-- The abstract view of a root: a tree of leaves with their bytes, its balance, and where an arena
-- holds it. A node's records are computed from the tree below it.
use tulya_checkpoint_store.Prelude.{
  ℕ, ◌+◌, ◌≤◌, ◌<◌, ◌≡◌, refl, max, List, ◌++◌, some, arith, length, get_elem?, slice,
  length-append, u64_max,
}
use tulya_checkpoint_store.Format.Records.{
  Sha256, NodeRecord, RootRecord, NodeBody, none_node, max_leaf_payload_bytes,
}
use tulya_checkpoint_store.Format.Build.{leaf_commitment, branch_commitment}
use tulya_checkpoint_store.Avl.Arena.{ArenaNode, Arena}

-- A leaf has its identifier, the offset of its payload and its bytes.
pub data Tree : Type 0 where
  leaf : (node_id payload_offset : ℕ) → (bytes : List ℕ) → Tree
  branch : (node_id : ℕ) → (left right : Tree) → Tree

abbrev pub content : Tree → List ℕ
content (leaf _ _ bytes) = bytes
content (branch _ l r) = content l ++ content r

abbrev pub id_of : Tree → ℕ
id_of (leaf node_id _ _) = node_id
id_of (branch node_id _ _) = node_id

abbrev pub len_of : Tree → ℕ
len_of (leaf _ _ bytes) = length bytes
len_of (branch _ l r) = len_of l + len_of r

abbrev pub height_of : Tree → ℕ
height_of (leaf _ _ _) = 1
height_of (branch _ l r) = max (height_of l) (height_of r) + 1

module _ ⦃sha : Sha256⦄ where
  abbrev pub commitment_of : Tree → List ℕ
  commitment_of (leaf _ _ bytes) = leaf_commitment (length bytes) bytes
  commitment_of (branch _ l r) =
      branch_commitment (max (height_of l) (height_of r) + 1) (len_of l) (commitment_of l)
        (len_of r) (commitment_of r)

  abbrev pub root_of : Tree → RootRecord
  root_of t = record {
    node_id = id_of t;
    logical_len = len_of t;
    height = height_of t;
    commitment = commitment_of t;
  }

  abbrev pub record_of_tree : Tree → NodeRecord
  record_of_tree (leaf i offset bytes) = record {
    height = 1;
    logical_len = length bytes;
    commitment = commitment_of (leaf i offset bytes);
    body = NodeBody.leaf offset (length bytes);
  }
  record_of_tree (branch i l r) = record {
    height = max (height_of l) (height_of r) + 1;
    logical_len = len_of l + len_of r;
    commitment = commitment_of (branch i l r);
    body = NodeBody.branch (id_of l) (id_of r) (len_of l);
  }

  abbrev pub node_of : Tree → ArenaNode
  node_of (leaf i offset bytes) =
      ArenaNode.leaf offset (length bytes) (record_of_tree (leaf i offset bytes))
  node_of (branch i l r) = ArenaNode.branch (root_of l) (root_of r) (record_of_tree (branch i l r))

-- The AVL balance, and the bounds of the leaves and of the identifiers.
abbrev pub IsBalanced : Tree → Type 0
IsBalanced (leaf i offset bytes) =
    (i < none_node)
    × (0 < length bytes)
    × (length bytes ≤ max_leaf_payload_bytes)
    × (offset + length bytes ≤ u64_max)
IsBalanced (branch i l r) =
    (i < none_node)
    × (height_of l ≤ height_of r + 1)
    × (height_of r ≤ height_of l + 1)
    × IsBalanced l
    × IsBalanced r

module _ ⦃sha : Sha256⦄ where
  -- The arena holds each node of the tree under its identifier, and the bytes of each leaf.
  abbrev pub Stored : Arena → Tree → Type 0
  Stored arena (leaf i offset bytes) =
      (get_elem? arena.nodes i ≡ some (node_of (leaf i offset bytes)))
      × (slice arena.payload offset (offset + length bytes) ≡ some bytes)
  Stored arena (branch i l r) =
      (get_elem? arena.nodes i ≡ some (node_of (branch i l r))) × Stored arena l × Stored arena r

pub len_of-eq : (t : Tree) → len_of t ≡ length (content t)
len_of-eq (leaf i offset bytes) = refl
len_of-eq (branch i l r) =
    omega (arith, len_of-eq l, len_of-eq r, length-append {0} (content l) (content r))

pub len_of-pos : (t : Tree) → IsBalanced t → 0 < len_of t
len_of-pos (leaf i offset bytes) h = h.1
len_of-pos (branch i l r) h = omega (arith, len_of-pos l h.3)

pub height_of-pos : (t : Tree) → 0 < height_of t
height_of-pos (leaf i offset bytes) = omega arith
height_of-pos (branch i l r) = omega arith

pub id_of-lt : (t : Tree) → IsBalanced t → id_of t < none_node
id_of-lt (leaf i offset bytes) h = h.0
id_of-lt (branch i l r) h = h.0

-- What an append-only edit adds, and how much of it.
pub record Grows (before after : Arena) (node_count byte_count : ℕ) : Type 0 where
  pub new_nodes : List ArenaNode
  pub new_payload : List ℕ
  pub nodes : after.nodes ≡ before.nodes ++ new_nodes
  pub payload : after.payload ≡ before.payload ++ new_payload
  pub few_nodes : length new_nodes ≤ node_count
  pub few_bytes : length new_payload ≤ byte_count
