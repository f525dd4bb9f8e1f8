-- ===== src/Wal/Nodes.antt =====
-- `validate_nodes` of transaction_v2.rs: the new nodes are canonical, agree with their payload and
-- children, and own the payload delta.
use tulya_checkpoint_store.Prelude.{
  ℕ, suc, ◌-◌, List, [], ◌∷◌, ◌++◌, Option, none, some, not, ◌||◌, ltb, leb, ◌==◌, length,
  get_elem?, if◌then◌else◌, Result, ok, ◌>>=◌, ◌>>◌, reject, map_err, checked_add, u64_max,
}
use tulya_checkpoint_store.Format.Records.{Sha256, NodeRecord}
use tulya_checkpoint_store.Format.Build.{leaf, branch, from_node}
use tulya_checkpoint_store.Format.Codec.{encode_node, decode_node}
use tulya_checkpoint_store.Format.Reads.{get_or_err}
use tulya_checkpoint_store.Avl.Arena.{same_node}
use tulya_checkpoint_store.Wal.Records.{
  WalError, format_error, invalid, overflow, WalGeometry, WalTransaction, wal_node_record_size,
}
use tulya_checkpoint_store.Wal.Geometry.{read_u64}

-- `local_node`
unfoldable pub local_node : WalGeometry → WalTransaction → ℕ → Option NodeRecord
local_node base transaction node_id =
    if ltb node_id base.node_count
    then none
    else get_elem? transaction.nodes (node_id - base.node_count)

-- The checks of the encoding of a node.
unfoldable pub validate_node_codec : NodeRecord → Result WalError (Unit {0})
validate_node_codec node = do
  let encoded = encode_node node
  reject (not (length encoded == wal_node_record_size))
      (invalid "v2 WAL T2N2 record width disagrees with schema")
  decoded ← map_err format_error (decode_node encoded)
  reject (not (same_node decoded node)) (invalid "v2 WAL node does not round-trip canonically")

module _ ⦃sha : Sha256⦄ where
  -- A node of height one; its payload range.
  unfoldable pub validate_leaf :
      WalGeometry
      → WalGeometry
      → WalTransaction
      → NodeRecord
      → ℕ
      → ℕ
      → Result WalError (List (ℕ × ℕ))
  validate_leaf base next transaction node field_a field_b = do
    end ← checked_add u64_max field_a field_b (overflow "v2 WAL leaf payload range exceeds u64")
    reject (ltb field_a base.payload_len || ltb next.payload_len end)
        (invalid "v2 WAL new leaf references bytes outside the payload delta")
    let local_start = field_a - base.payload_len
    let local_end = end - base.payload_len
    payload ←
        get_or_err transaction.payload local_start local_end
          (invalid "v2 WAL leaf payload slice is outside the delta")
    expected ← map_err format_error (leaf field_a payload)
    reject (not (same_node expected node))
        (invalid "v2 WAL leaf commitment disagrees with payload bytes")
    ok ((field_a, end) ∷ [])

  -- The comparison with a branch of two new nodes.
  unfoldable pub validate_local_branch :
      NodeRecord → ℕ → ℕ → Option NodeRecord → Option NodeRecord → Result WalError (Unit {0})
  validate_local_branch node field_a field_b none right = ok tt
  validate_local_branch node field_a field_b (some left) none = ok tt
  validate_local_branch node field_a field_b (some left) (some right) = do
    left_root ← map_err format_error (from_node field_a left)
    right_root ← map_err format_error (from_node field_b right)
    expected ← map_err format_error (branch left_root right_root)
    reject (not (same_node expected node))
        (invalid "v2 WAL local branch metadata or commitment is inconsistent")

  -- A node of any other height; it has no payload range.
  unfoldable pub validate_branch :
      WalGeometry → WalTransaction → NodeRecord → ℕ → ℕ → ℕ → Result WalError (List (ℕ × ℕ))
  validate_branch base transaction node node_id field_a field_b = do
    reject (leb node_id field_a || leb node_id field_b)
        (invalid "v2 WAL branch child is not topologically prior")
    validate_local_branch node field_a field_b (local_node base transaction field_a)
        (local_node base transaction field_b)
    ok []

  -- The body of the loop over the nodes.
  unfoldable pub validate_node :
      WalGeometry → WalGeometry → WalTransaction → ℕ → NodeRecord → Result WalError (List (ℕ × ℕ))
  validate_node base next transaction local node = do
    node_id ←
        checked_add u64_max base.node_count local (overflow "v2 WAL node identifier exceeds u64")
    validate_node_codec node
    field_a ← read_u64 (encode_node node) 16 "v2 WAL node field A is truncated"
    field_b ← read_u64 (encode_node node) 24 "v2 WAL node field B is truncated"
    if node.height == 1
        then validate_leaf base next transaction node field_a field_b
        else validate_branch base transaction node node_id field_a field_b

  -- The loop over the nodes from an index on, and the ranges that it pushes.
  unfoldable pub node_ranges :
      WalGeometry
      → WalGeometry
      → WalTransaction
      → ℕ
      → List NodeRecord
      → Result WalError (List (ℕ × ℕ))
  node_ranges base next transaction local [] = ok []
  node_ranges base next transaction local (node ∷ nodes) = do
    ranges ← validate_node base next transaction local node
    more ← node_ranges base next transaction (suc local) nodes
    ok (ranges ++ more)

-- `sort_unstable_by_key(|range| range.0)`. Ranges of one start may come out in either order; the
-- loop below refuses the second of them, since no leaf is empty.
unfoldable pub insert_range : ℕ × ℕ → List (ℕ × ℕ) → List (ℕ × ℕ)
insert_range range [] = range ∷ []
insert_range range (first ∷ ranges) =
    let rest = insert_range range ranges in
    if leb range.0 first.0 then range ∷ first ∷ ranges else first ∷ rest

unfoldable pub sort_ranges : List (ℕ × ℕ) → List (ℕ × ℕ)
sort_ranges [] = []
sort_ranges (range ∷ ranges) = insert_range range (sort_ranges ranges)

-- The loop over the sorted ranges; the cursor at its end.
unfoldable pub own_ranges : ℕ → List (ℕ × ℕ) → Result WalError ℕ
own_ranges cursor [] = ok cursor
own_ranges cursor (range ∷ ranges) = do
  reject (not (range.0 == cursor))
      (invalid "v2 WAL new leaves do not contiguously own the payload delta")
  own_ranges range.1 ranges

-- `validate_nodes`
unfoldable pub validate_nodes :
    ⦃sha : Sha256⦄ → WalGeometry → WalGeometry → WalTransaction → Result WalError (Unit {0})
validate_nodes base next transaction = do
  leaf_ranges ← node_ranges base next transaction 0 transaction.nodes
  cursor ← own_ranges base.payload_len (sort_ranges leaf_ranges)
  reject (not (cursor == next.payload_len))
      (invalid "v2 WAL payload delta contains bytes not owned by new leaves")
