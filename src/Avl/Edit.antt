-- ===== src/Avl/Edit.antt =====
-- Allocation, rotation, concatenation and splitting of avl.rs. `concat_on` and `split_on` recur on
-- fuel; Avl/Concat and Avl/Split show how much is enough.
use tulya_checkpoint_store.Prelude.{
  ℕ, zero, suc, ◌+◌, ◌-◌, List, Option, none, some, not, min, ltb, leb, ◌==◌, if◌then◌else◌, length,
  Result, ok, err, map_err, reject, try_from, checked_add, u16_max, u64_max,
}
use tulya_checkpoint_store.Format.Records.{Sha256, RootRecord}
use tulya_checkpoint_store.Format.Build.{from_node, abs_diff}
use tulya_checkpoint_store.Format.Build
use tulya_checkpoint_store.Avl.Arena.{
  AvlError, format, invalid, overflow, ArenaNode, record_of, arena_append_payload, arena_push_node,
  arena_read_payload, node_for_root, validate_node,
}
use tulya_checkpoint_store.Avl.Action.{
  out_of_fuel, Action, pure, fail, lift, reading, writing, inspect, ◌>>=◌, ◌>>◌,
}

-- `arena_append_payload`: the offset that the bytes occupy.
unfoldable pub append_payload : List ℕ → Action ℕ
append_payload bytes = do
  offset ← reading (λ arena.
      try_from u64_max (length arena.payload) (overflow "v2 payload arena length exceeds u64"))
  writing (arena_append_payload bytes)
  pure offset

-- `arena_push_node`: the dense identifier of the node.
unfoldable pub push_node : ArenaNode → Action ℕ
push_node node = do
  node_id ←
      reading (λ arena.
        try_from u64_max (length arena.nodes) (overflow "v2 node arena length exceeds u64"))
  writing (arena_push_node node)
  pure node_id

unfoldable pub allocate_node : ArenaNode → Action RootRecord
allocate_node node = do
  node_id ←
      reading (λ arena.
        try_from u64_max (length arena.nodes) (overflow "v2 node arena length exceeds u64"))
  root ← lift (map_err format (from_node node_id (record_of node)))
  placed ← push_node node
  lift (reject (not (placed == node_id)) (invalid "v2 node placement disagrees with its record"))
  pure root

-- `height.saturating_add(1)`
abbrev pub next_height : ℕ → ℕ
next_height h = min (h + 1) u16_max

-- The children of a node that must be a branch.
unfoldable pub expect_branch : ArenaNode → Result AvlError (RootRecord × RootRecord)
expect_branch (ArenaNode.branch left right _) = ok (left, right)
expect_branch (ArenaNode.leaf _ _ _) = err (invalid "v2 AVL traversal expected a branch node")

unfoldable pub branch_children : RootRecord → Action (RootRecord × RootRecord)
branch_children root = do
  inspect 1
  node ← reading (λ arena. node_for_root arena root)
  lift (expect_branch node)

module _ ⦃sha : Sha256⦄ where
  unfoldable pub allocate_leaf : List ℕ → Action RootRecord
  allocate_leaf bytes = do
    payload_offset ← reading (λ arena.
        try_from u64_max (length arena.payload) (overflow "v2 payload arena length exceeds u64"))
    node ← lift (map_err format (Build.leaf payload_offset bytes))
    placed ← append_payload bytes
    lift (
        reject (not (placed == payload_offset))
          (invalid "v2 leaf payload placement disagrees with its record"))
    allocate_node (ArenaNode.leaf payload_offset node.logical_len node)

  unfoldable pub allocate_branch : RootRecord → RootRecord → Action RootRecord
  allocate_branch left right = do
    inspect 2
    reading (λ arena. node_for_root arena left) >>= λ _.
        reading (λ arena. node_for_root arena right) >>= λ _.
        lift (map_err format (Build.branch left right)) >>= λ node.
        allocate_node (ArenaNode.branch left right node)

  -- The two halves of `rebalance_on` where the left side, or the right side, is too high.
  unfoldable pub rotate_left_high : RootRecord → RootRecord → Action RootRecord
  rotate_left_high left right = branch_children left >>= λ (left_left, left_right).
      if leb left_right.height left_left.height
      then (do new_right ← allocate_branch left_right right; allocate_branch left_left new_right)
      else (branch_children left_right >>= λ (middle_left, middle_right). do
        new_left ← allocate_branch left_left middle_left
        new_right ← allocate_branch middle_right right
        allocate_branch new_left new_right)

  unfoldable pub rotate_right_high : RootRecord → RootRecord → Action RootRecord
  rotate_right_high left right = branch_children right >>= λ (right_left, right_right).
      if leb right_left.height right_right.height
      then (do new_left ← allocate_branch left right_left; allocate_branch new_left right_right)
      else (branch_children right_left >>= λ (middle_left, middle_right). do
        new_left ← allocate_branch left middle_left
        new_right ← allocate_branch middle_right right_right
        allocate_branch new_left new_right)

  unfoldable pub rebalance : RootRecord → RootRecord → Action RootRecord
  rebalance left right =
      if leb (abs_diff left.height right.height) 1
      then allocate_branch left right
      else if ltb right.height left.height
      then rotate_left_high left right
      else rotate_right_high left right

  unfoldable pub concat_on : ℕ → RootRecord → RootRecord → Action RootRecord
  concat_on zero left right = fail out_of_fuel
  concat_on (suc fuel) left right =
      if ltb (next_height right.height) left.height
      then (branch_children left >>= λ (left_left, left_right). do
        joined ← concat_on fuel left_right right
        rebalance left_left joined)
      else if ltb (next_height left.height) right.height
      then (branch_children right >>= λ (right_left, right_right). do
        joined ← concat_on fuel left right_left
        rebalance joined right_right)
      else allocate_branch left right

  -- Every step into a child lowers one of the heights.
  unfoldable pub concat : RootRecord → RootRecord → Action RootRecord
  concat left right = concat_on (suc (left.height + right.height)) left right

  unfoldable pub concat_optional :
      Option RootRecord → Option RootRecord → Action (Option RootRecord)
  concat_optional none none = pure none
  concat_optional none (some root) = pure (some root)
  concat_optional (some root) none = pure (some root)
  concat_optional (some left) (some right) = concat left right >>= λ root. pure (some root)

  -- `match near { None => right, Some(near) => concat_on(near, right)? }`, and its mirror.
  unfoldable pub join_near_right : Option RootRecord → RootRecord → Action RootRecord
  join_near_right none right = pure right
  join_near_right (some near) right = concat near right

  unfoldable pub join_left_near : RootRecord → Option RootRecord → Action RootRecord
  join_left_near left none = pure left
  join_left_near left (some near) = concat left near

  unfoldable pub split_leaf : ℕ → ℕ → ℕ → Action (Option RootRecord × Option RootRecord)
  split_leaf payload_offset payload_len offset = do
    left_end ←
        lift
          (checked_add u64_max payload_offset offset (overflow "v2 leaf split range exceeds u64"))
    leaf_end ← lift (
        checked_add u64_max payload_offset payload_len (overflow "v2 leaf split range exceeds u64"))
    left_bytes ← reading (λ arena. arena_read_payload arena payload_offset left_end)
    right_bytes ← reading (λ arena. arena_read_payload arena left_end leaf_end)
    left ← allocate_leaf left_bytes
    right ← allocate_leaf right_bytes
    pure (some left, some right)

  -- The rest of `split_on` at the node it descends into; `split` is the call for a child.
  unfoldable pub split_node :
      (RootRecord → ℕ → Action (Option RootRecord × Option RootRecord))
      → ArenaNode
      → ℕ
      → Action (Option RootRecord × Option RootRecord)
  split_node split (ArenaNode.leaf payload_offset payload_len _) offset =
      split_leaf payload_offset payload_len offset
  split_node split (ArenaNode.branch left right _) offset =
      if ltb offset left.logical_len
      then (split left offset >>= λ (far_left, near). do
        joined_right ← join_near_right near right
        pure (far_left, some joined_right))
      else if offset == left.logical_len
      then pure (some left, some right)
      else (split right (offset - left.logical_len) >>= λ (near, far_right). do
        joined_left ← join_left_near left near
        pure (some joined_left, far_right))

  unfoldable pub split_on : ℕ → RootRecord → ℕ → Action (Option RootRecord × Option RootRecord)
  split_on zero root offset = fail out_of_fuel
  split_on (suc fuel) root offset =
      if ltb root.logical_len offset
      then lift (err (invalid "v2 sequence split offset exceeds root length"))
      else if offset == 0
      then pure (none, some root)
      else if offset == root.logical_len
      then pure (some root, none)
      else (do
        inspect 1
        node ← reading (λ arena. node_for_root arena root)
        reading (λ arena. validate_node arena node)
        split_node (split_on fuel) node offset)

  -- The recursion goes down one level of the tree at each call.
  unfoldable pub split : RootRecord → ℕ → Action (Option RootRecord × Option RootRecord)
  split root offset = split_on (suc root.height) root offset
