-- ===== src/Avl/Read.antt =====
-- `read_range_counted_on` and `verify_root_counted_on` of avl.rs.
use tulya_checkpoint_store.Prelude.{
  ℕ, zero, suc, ◌-◌, ◌*◌, List, [], ◌∷◌, ◌++◌, min, ltb, ◌==◌, not, if◌then◌else◌, length, Result,
  ok, err, ◌>>=◌, ◌>>◌, reject, map_err, checked_add, saturating_add, u64_max,
}
use tulya_checkpoint_store.Format.Records.{Sha256, RootRecord}
use tulya_checkpoint_store.Avl.Arena.{
  AvlError, invalid, overflow, ArenaNode, Arena, node_for_root, validate_node, arena_read_payload,
}
use tulya_checkpoint_store.Avl.Action.{Fault, raised, out_of_fuel}

-- An entry of the traversal stack: a root, an offset in it, and a length.
abbrev pub Pending : Type 0
Pending = RootRecord × ℕ × ℕ

-- What one node adds: bytes for the output, or entries for the stack, the top one first.
pub data Visit : Type 0 where
  emit : List ℕ → Visit
  descend : List Pending → Visit

-- The entries of a range that has a positive length.
abbrev pub pending_if : ℕ → RootRecord → ℕ → List Pending
pending_if len root offset = if ltb 0 len then (root, offset, len) ∷ [] else []

unfoldable pub visit_leaf : Arena → ℕ → ℕ → ℕ → ℕ → Result AvlError Visit
visit_leaf arena payload_offset payload_len local_offset local_length = do
  local_end ← checked_add u64_max local_offset local_length (overflow "v2 leaf range exceeds u64")
  reject (ltb payload_len local_end) (invalid "v2 leaf range exceeds leaf payload")
  start ← checked_add u64_max payload_offset local_offset (overflow "v2 payload start exceeds u64")
  end ← checked_add u64_max start local_length (overflow "v2 payload end exceeds u64")
  bytes ← arena_read_payload arena start end
  ok (emit bytes)

unfoldable pub visit_branch : RootRecord → RootRecord → ℕ → ℕ → Visit
visit_branch left right local_offset local_length =
    if ltb local_offset left.logical_len
    then (let left_length = min local_length (left.logical_len - local_offset) in
        descend (
          pending_if left_length left local_offset
          ++ pending_if (local_length - left_length) right 0))
    else descend ((right, local_offset - left.logical_len, local_length) ∷ [])

unfoldable pub visit_node : Arena → ArenaNode → ℕ → ℕ → Result AvlError Visit
visit_node arena (ArenaNode.leaf payload_offset payload_len _) local_offset local_length =
    visit_leaf arena payload_offset payload_len local_offset local_length
visit_node arena (ArenaNode.branch left right _) local_offset local_length =
    ok (visit_branch left right local_offset local_length)

module _ ⦃sha : Sha256⦄ where
  unfoldable pub visit : Arena → RootRecord → ℕ → ℕ → Result AvlError Visit
  visit arena current local_offset local_length = do
    node ← node_for_root arena current
    validate_node arena node
    visit_node arena node local_offset local_length

  -- `while let Some(…) = stack.pop()`
  unfoldable pub read_loop : ℕ → Arena → List Pending → ℕ → List ℕ → Result Fault (List ℕ × ℕ)
  read_loop fuel arena [] visited output = ok (output, visited)
  read_loop zero arena (top ∷ stack) visited output = err out_of_fuel
  read_loop (suc fuel) arena ((current, local_offset, local_length) ∷ stack) visited output =
      elim (visit arena current local_offset local_length) [
        | err e ↦ err (raised e)
        | ok (emit bytes) ↦ read_loop fuel arena stack (saturating_add visited 1) (output ++ bytes)
        | ok (descend entries) ↦
            read_loop fuel arena (entries ++ stack) (saturating_add visited 1) output
      ]

  -- Each byte of the root accounts for two visits at most.
  unfoldable pub read_range_counted : Arena → RootRecord → ℕ → ℕ → Result Fault (List ℕ × ℕ)
  read_range_counted arena root offset len = do
    node ← map_err raised (node_for_root arena root)
    end ← checked_add u64_max offset len (raised (overflow "v2 range end exceeds u64"))
    reject (ltb root.logical_len end) (raised (invalid "v2 range exceeds root logical length"))
    if len == 0 then ok ([], 0) else (do
      found ← read_loop (2 * root.logical_len) arena ((root, offset, len) ∷ []) 0 []
      reject (not (length found.0 == len))
          (raised (invalid "v2 range traversal produced an unexpected byte count"))
      ok found)

  -- `read_range`
  unfoldable pub read_range : Arena → RootRecord → ℕ → ℕ → Result Fault (List ℕ)
  read_range arena root offset len = do found ← read_range_counted arena root offset len; ok found.0

  -- `verify_node_on`; the count of nodes is threaded through.
  unfoldable pub verify_node : ℕ → Arena → RootRecord → ℕ → Result Fault ℕ
  verify_node zero arena root visited = err out_of_fuel
  verify_node (suc fuel) arena root visited = do
    node ← map_err raised (node_for_root arena root)
    map_err raised (validate_node arena node)
    elim node [
      | ArenaNode.leaf _ _ _ ↦ ok (saturating_add visited 1)
      | ArenaNode.branch left right _ ↦ (do
        after_left ← verify_node fuel arena left (saturating_add visited 1)
        verify_node fuel arena right after_left)
    ]

  -- `verify_root_counted_on`
  unfoldable pub verify_root_counted : Arena → RootRecord → Result Fault ℕ
  verify_root_counted arena root = verify_node (suc root.height) arena root 0
