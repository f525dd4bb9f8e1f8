-- ===== src/Avl/Arena.antt =====
-- The in-memory arena of avl.rs (`V2AvlSequence` as an `ArenaStore`), and the checks that every
-- traversal makes of a root and of a node. On a 64-bit target `usize::try_from` of a `u64` does
-- not fail, and is left out; `u64::try_from` of a length is kept.
use mathlib.Core.Bool.{decide}
use tulya_checkpoint_store.Prelude.{
  ℕ, List, [], ◌∷◌, ◌++◌, none, some, Bool, not, String, get_elem?, take, slice, Result, ok, err,
  ◌>>=◌, ◌>>◌, reject, map_err, checked_add, u64_max,
}
use tulya_checkpoint_store.Format.Records.{
  Sha256, FormatError, NodeRecord, RootRecord, NodeRecord-discrete, RootRecord-discrete,
}
use tulya_checkpoint_store.Format.Build.{from_node}
use tulya_checkpoint_store.Format.Build

-- `V2AvlError`, without `Image`, which the modelled code does not raise.
pub data AvlError : Type 0 where
  format : FormatError → AvlError
  invalid : String → AvlError
  overflow : String → AvlError
  capacity : String → AvlError

pub data ArenaNode : Type 0 where
  leaf : (payload_offset payload_len : ℕ) → NodeRecord → ArenaNode
  branch : (left right : RootRecord) → NodeRecord → ArenaNode

-- `ArenaNode::record`
abbrev pub record_of : ArenaNode → NodeRecord
record_of (leaf _ _ node) = node
record_of (branch _ _ node) = node

-- `V2AvlSequence`
pub record Arena : Type 0 where
  pub payload : List ℕ
  pub nodes : List ArenaNode

-- `V2AvlSequence::default`
abbrev pub empty : Arena
empty = record { payload = []; nodes = [] }

unfoldable pub arena_load_node : Arena → ℕ → Result AvlError ArenaNode
arena_load_node arena node_id = elim (get_elem? arena.nodes node_id) [
  | none ↦ err (invalid "v2 root references a missing arena node")
  | some node ↦ ok node
]

-- `arena_read_payload`, by `payload_slice`.
unfoldable pub arena_read_payload : Arena → ℕ → ℕ → Result AvlError (List ℕ)
arena_read_payload arena start end = elim (slice arena.payload start end) [
  | none ↦ err (invalid "v2 payload range is outside the arena")
  | some bytes ↦ ok bytes
]

unfoldable pub arena_append_payload : List ℕ → Arena → Arena
arena_append_payload bytes arena = record arena { payload = arena.payload ++ bytes }

unfoldable pub arena_push_node : ArenaNode → Arena → Arena
arena_push_node node arena = record arena { nodes = arena.nodes ++ node ∷ [] }

unfoldable pub arena_truncate : ℕ → ℕ → Arena → Arena
arena_truncate payload_len node_count arena = record {
  payload = take payload_len arena.payload;
  nodes = take node_count arena.nodes;
}

unfoldable pub same_root : RootRecord → RootRecord → Bool
same_root a b = decide (RootRecord-discrete a b)

unfoldable pub same_node : NodeRecord → NodeRecord → Bool
same_node a b = decide (NodeRecord-discrete a b)

-- `root_for_node_id_on`
unfoldable pub root_for_node_id : Arena → ℕ → Result AvlError RootRecord
root_for_node_id arena node_id = do
  node ← arena_load_node arena node_id
  map_err format (from_node node_id (record_of node))

-- `node_for_root_on`
unfoldable pub node_for_root : Arena → RootRecord → Result AvlError ArenaNode
node_for_root arena root = do
  node ← arena_load_node arena root.node_id
  canonical ← map_err format (from_node root.node_id (record_of node))
  reject (not (same_root canonical root)) (invalid "v2 root metadata disagrees with its arena node")
  ok node

module _ ⦃sha : Sha256⦄ where
  -- `validate_node_on`
  unfoldable pub validate_node : Arena → ArenaNode → Result AvlError (Unit {0})
  validate_node arena (leaf payload_offset payload_len node) = do
    payload_end ←
        checked_add u64_max payload_offset payload_len
          (overflow "v2 leaf payload range exceeds u64")
    bytes ← arena_read_payload arena payload_offset payload_end
    expected ← map_err format (Build.leaf payload_offset bytes)
    reject (not (same_node expected node))
        (invalid "v2 leaf metadata or commitment verification failed")
  validate_node arena (branch left right node) = do
    expected ← map_err format (Build.branch left right)
    reject (not (same_node expected node))
        (invalid "v2 branch metadata or commitment verification failed")
