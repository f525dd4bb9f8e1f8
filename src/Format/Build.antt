-- ===== src/Format/Build.antt =====
-- The checked constructors of the records, and the commitments that they store.
use tulya_checkpoint_store.Prelude.{
  ℕ, ◌+◌, ◌-◌, max, List, ◌++◌, [], ◌∷◌, ltb, ◌==◌, length, is_empty, Result, ok, ◌>>=◌, ◌>>◌,
  reject, checked_add, try_from, u16_max, u64_max,
}
use tulya_checkpoint_store.Format.Bytes.{to_le_bytes}
use tulya_checkpoint_store.Format.Records.{
  Sha256, FormatError, invalid, overflow, NodeBody, NodeRecord, RootRecord, none_node,
  max_leaf_payload_bytes,
}

-- b"tulya-sequence-v2/leaf\0" and b"tulya-sequence-v2/branch\0"
abbrev pub leaf_domain : List ℕ
leaf_domain =
    b't' ∷ b'u' ∷ b'l' ∷ b'y' ∷ b'a' ∷ b'-' ∷ b's' ∷ b'e' ∷ b'q' ∷ b'u' ∷ b'e' ∷ b'n' ∷ b'c' ∷ b'e'
    ∷ b'-' ∷ b'v' ∷ b'2' ∷ b'/' ∷ b'l' ∷ b'e' ∷ b'a' ∷ b'f' ∷ 0 ∷ []

abbrev pub branch_domain : List ℕ
branch_domain =
    b't' ∷ b'u' ∷ b'l' ∷ b'y' ∷ b'a' ∷ b'-' ∷ b's' ∷ b'e' ∷ b'q' ∷ b'u' ∷ b'e' ∷ b'n' ∷ b'c' ∷ b'e'
    ∷ b'-' ∷ b'v' ∷ b'2' ∷ b'/' ∷ b'b' ∷ b'r' ∷ b'a' ∷ b'n' ∷ b'c' ∷ b'h' ∷ 0 ∷ []

-- `left.height.abs_diff(right.height)`
abbrev pub abs_diff : ℕ → ℕ → ℕ
abs_diff a b = (a - b) + (b - a)

module _ ⦃sha : Sha256⦄ where
  unfoldable pub leaf_commitment : ℕ → List ℕ → List ℕ
  leaf_commitment logical_len payload =
      sha.digest (leaf_domain ++ (to_le_bytes 8 logical_len ++ payload))

  unfoldable pub branch_commitment : ℕ → ℕ → List ℕ → ℕ → List ℕ → List ℕ
  branch_commitment height left_len left right_len right = sha.digest (
      branch_domain
      ++ (to_le_bytes 2 height
          ++ (to_le_bytes 8 left_len ++ (left ++ (to_le_bytes 8 right_len ++ right)))))

-- `validate_child_root`
unfoldable pub validate_child_root : RootRecord → Result FormatError (Unit {0})
validate_child_root root = do
  reject (root.node_id == none_node) (invalid "v2 root uses the reserved none-node identifier")
  reject (root.logical_len == 0) (invalid "v2 root logical length must be positive")
  reject (root.height == 0) (invalid "v2 root height must be positive")
  ok tt

-- `V2RootRecord::from_node`
unfoldable pub from_node : ℕ → NodeRecord → Result FormatError RootRecord
from_node node_id node = do
  reject (node_id == none_node) (invalid "v2 sequence root uses the reserved none-node identifier")
  ok (record {
    node_id = node_id;
    logical_len = node.logical_len;
    height = node.height;
    commitment = node.commitment;
  })

module _ ⦃sha : Sha256⦄ where
  -- `V2NodeRecord::leaf`
  unfoldable pub leaf : ℕ → List ℕ → Result FormatError NodeRecord
  leaf payload_offset payload = do
    reject (is_empty payload) (invalid "v2 sequence leaf payload must be non-empty")
    reject (ltb max_leaf_payload_bytes (length payload))
        (invalid "v2 sequence leaf payload exceeds the staging bound")
    logical_len ←
        try_from u64_max (length payload) (overflow "v2 sequence leaf payload length exceeds u64")
    range_end ←
        checked_add u64_max payload_offset logical_len
          (overflow "v2 sequence leaf payload range exceeds u64")
    ok (record {
      height = 1;
      logical_len = logical_len;
      commitment = leaf_commitment logical_len payload;
      body = NodeBody.leaf payload_offset logical_len;
    })

  -- `V2NodeRecord::branch`
  unfoldable pub branch : RootRecord → RootRecord → Result FormatError NodeRecord
  branch left right = do
    validate_child_root left
    validate_child_root right
    reject (ltb 1 (abs_diff left.height right.height))
        (invalid "v2 sequence branch children are not AVL-balanced")
    height ←
        checked_add u16_max (max left.height right.height) 1
          (overflow "v2 sequence branch height exceeds u16")
    logical_len ←
        checked_add u64_max left.logical_len right.logical_len
          (overflow "v2 sequence branch logical length exceeds u64")
    ok (record {
      height = height;
      logical_len = logical_len;
      commitment =
          branch_commitment height left.logical_len left.commitment right.logical_len
            right.commitment;
      body = NodeBody.branch left.node_id right.node_id left.logical_len;
    })
