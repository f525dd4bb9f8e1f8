-- ===== src/Apply/Validate.antt =====
-- `validate_against_committed_state` of apply_v2.rs: the references of a commit are resolved in the
-- committed state and in the commit.
use tulya_checkpoint_store.Prelude.{
  ℕ, suc, ◌-◌, List, [], ◌∷◌, String, Option, none, some, not, ◌||◌, ltb, leb, ◌==◌, get_elem?,
  if◌then◌else◌, Result, ok, err, ◌>>=◌, ◌>>◌, reject, map_err, checked_add, u64_max,
}
use tulya_checkpoint_store.Format.Records.{Sha256, NodeRecord, RootRecord}
use tulya_checkpoint_store.Format.Build.{branch, from_node}
use tulya_checkpoint_store.Format.Codec.{encode_node}
use tulya_checkpoint_store.Format.Reads.{read_le}
use tulya_checkpoint_store.Avl.Arena.{same_node, same_root}
use tulya_checkpoint_store.Publication.Records.{
  VersionRecord, CheckpointRecord, checkpoint_state_metadata,
}
use tulya_checkpoint_store.Wal.Records.{WalGeometry, WalTransaction}
use tulya_checkpoint_store.Wal.Validate.{same_state}
use tulya_checkpoint_store.Commit.Records.{DecodedCommit}
use tulya_checkpoint_store.Apply.Maps.{lookup, contains, is_some}
use tulya_checkpoint_store.Apply.State.{
  ApplyError, format_error, publication_error, invalid, overflow, CheckpointKey, same_key,
  CommittedState,
}

-- `.get(index).ok_or(e)?`
abbrev pub get_or : {A : Type 0} → List A → ℕ → String → Result ApplyError A
get_or items index message = elim (get_elem? items index) [
  | none ↦ err (invalid message)
  | some item ↦ ok item
]

-- `read_u64`
unfoldable pub read_u64 : List ℕ → ℕ → Result ApplyError ℕ
read_u64 bytes offset =
    read_le 8 bytes offset (overflow "v2 apply u64 range exceeds usize")
      (invalid "v2 apply node field is truncated")

-- `resolve_node`; the subtraction cannot underflow in its branch.
unfoldable pub resolve_node :
    CommittedState → WalGeometry → WalTransaction → ℕ → Result ApplyError NodeRecord
resolve_node state base transaction node_id =
    if ltb node_id base.node_count
    then get_or state.nodes node_id "v2 committed node is absent"
    else get_or transaction.nodes (node_id - base.node_count) "v2 referenced new node is absent"

-- `resolve_version`
unfoldable pub resolve_version :
    CommittedState → WalGeometry → WalTransaction → ℕ → Result ApplyError VersionRecord
resolve_version state base transaction version_id =
    if ltb version_id base.version_count
    then get_or state.versions version_id "v2 committed version is absent"
    else get_or transaction.versions (version_id - base.version_count)
        "v2 referenced new version is absent"

module _ ⦃sha : Sha256⦄ where
  -- The body of the loop of `validate_nodes` for a node that is not a leaf.
  unfoldable pub validate_branch :
      CommittedState → WalGeometry → WalTransaction → ℕ → NodeRecord → Result ApplyError (Unit {0})
  validate_branch state base transaction local node = do
    node_id ←
        checked_add u64_max base.node_count local (overflow "v2 apply node identifier exceeds u64")
    left_id ← read_u64 (encode_node node) 16
    right_id ← read_u64 (encode_node node) 24
    reject (leb node_id left_id || leb node_id right_id)
        (invalid "v2 apply branch child is not topologically prior")
    left ← resolve_node state base transaction left_id
    right ← resolve_node state base transaction right_id
    left_root ← map_err format_error (from_node left_id left)
    right_root ← map_err format_error (from_node right_id right)
    expected ← map_err format_error (branch left_root right_root)
    reject (not (same_node expected node))
        (invalid "v2 apply branch metadata disagrees with committed children")

  -- `validate_nodes`, from an index on
  unfoldable pub validate_nodes :
      CommittedState
      → WalGeometry
      → WalTransaction
      → ℕ
      → List NodeRecord
      → Result ApplyError (Unit {0})
  validate_nodes state base transaction local [] = ok tt
  validate_nodes state base transaction local (node ∷ nodes) = do
    if node.height == 1 then ok tt else validate_branch state base transaction local node
    validate_nodes state base transaction (suc local) nodes

-- `if let Some(parent) = version.parent_version()`
unfoldable pub resolve_parent :
    CommittedState → WalGeometry → WalTransaction → Option ℕ → Result ApplyError (Unit {0})
resolve_parent state base transaction none = ok tt
resolve_parent state base transaction (some parent) = do
  version ← resolve_version state base transaction parent
  ok tt

-- `validate_versions`
unfoldable pub validate_versions :
    CommittedState
    → WalGeometry
    → WalTransaction
    → List VersionRecord
    → Result ApplyError (Unit {0})
validate_versions state base transaction [] = ok tt
validate_versions state base transaction (version ∷ versions) = do
  resolve_parent state base transaction version.parent_version
  node ← resolve_node state base transaction version.root.node_id
  expected ← map_err format_error (from_node version.root.node_id node)
  reject (not (same_root expected version.root))
      (invalid "v2 apply version root disagrees with committed node metadata")
  validate_versions state base transaction versions

-- The identity of a checkpoint.
abbrev pub key_of : CheckpointRecord → CheckpointKey
key_of checkpoint = (checkpoint.thread_id, checkpoint.checkpoint_id)

-- The parent of a checkpoint is committed, when it has one.
unfoldable pub validate_parent :
    CommittedState → List ℕ → Option (List ℕ) → Result ApplyError (Unit {0})
validate_parent state thread_id none = ok tt
validate_parent state thread_id (some parent) =
    reject (not (is_some (lookup same_key (thread_id, parent) state.checkpoint_ordinals)))
      (invalid "v2 checkpoint parent is not a committed checkpoint in the same thread")

-- `match checkpoint.messages_version` and `match checkpoint.result_version`
unfoldable pub optional_root :
    CommittedState → WalGeometry → WalTransaction → Option ℕ → Result ApplyError (Option RootRecord)
optional_root state base transaction none = ok none
optional_root state base transaction (some version) = do
  found ← resolve_version state base transaction version
  ok (some found.root)

module _ ⦃sha : Sha256⦄ where
  -- `validate_checkpoint`
  unfoldable pub validate_checkpoint :
      CommittedState
      → WalGeometry
      → WalTransaction
      → CheckpointRecord
      → Result ApplyError (Unit {0})
  validate_checkpoint state base transaction checkpoint = do
    reject (is_some (lookup same_key (key_of checkpoint) state.checkpoint_ordinals))
        (invalid "v2 checkpoint identity is already committed")
    reject (contains same_key (key_of checkpoint) state.deleted_checkpoints)
        (invalid "v2 checkpoint identity was logically deleted")
    validate_parent state checkpoint.thread_id checkpoint.parent_checkpoint_id
    identity ← resolve_version state base transaction checkpoint.identity_version
    messages ← optional_root state base transaction checkpoint.messages_version
    result ← optional_root state base transaction checkpoint.result_version
    expected ← map_err publication_error (checkpoint_state_metadata identity.root messages result)
    reject (not (same_state expected checkpoint.state))
        (invalid "v2 checkpoint state commitment disagrees with committed version roots")

  -- `validate_against_committed_state`
  unfoldable pub validate_against_committed_state :
      CommittedState → DecodedCommit → Result ApplyError (Unit {0})
  validate_against_committed_state state decoded = do
    let transaction = decoded.wal.transaction
    validate_nodes state decoded.encoded_base transaction 0 transaction.nodes
    validate_versions state decoded.encoded_base transaction transaction.versions
    validate_checkpoint state decoded.encoded_base transaction transaction.checkpoint
