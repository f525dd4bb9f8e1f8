-- ===== src/Wal/Validate.antt =====
-- `validate_versions`, `validate_checkpoint` and `validate_transaction` of transaction_v2.rs.
use mathlib.Core.Bool.{decide}
use tulya_checkpoint_store.Prelude.{
  ℕ, suc, ◌-◌, List, [], ◌∷◌, Option, none, some, Bool, not, ltb, leb, ◌==◌, length, get_elem?,
  if◌then◌else◌, Result, ok, ◌>>=◌, ◌>>◌, reject, map_err, try_from, u64_max,
}
use tulya_checkpoint_store.Format.Records.{Sha256, RootRecord, NodeRecord}
use tulya_checkpoint_store.Format.Build.{from_node}
use tulya_checkpoint_store.Avl.Arena.{same_root}
use tulya_checkpoint_store.Publication.Records.{
  Utf8, StateMetadata, VersionRecord, CheckpointRecord, StateMetadata-discrete,
  VersionRecord-discrete, CheckpointRecord-discrete, checkpoint_state_metadata,
}
use tulya_checkpoint_store.Publication.Version.{encode_version, decode_version}
use tulya_checkpoint_store.Publication.Checkpoint.{encode_checkpoint, decode_checkpoint}
use tulya_checkpoint_store.Wal.Records.{
  WalError, format_error, publication_error, invalid, overflow, WalGeometry, WalTransaction,
  wal_version_record_size,
}
use tulya_checkpoint_store.Wal.Geometry.{
  validate_base_geometry, next_geometry_from_counts, version_id_for_local,
}
use tulya_checkpoint_store.Wal.Nodes.{local_node, validate_nodes}

-- The comparisons of the records.
abbrev pub same_version : VersionRecord → VersionRecord → Bool
same_version a b = decide (VersionRecord-discrete a b)

abbrev pub same_checkpoint : CheckpointRecord → CheckpointRecord → Bool
same_checkpoint a b = decide (CheckpointRecord-discrete a b)

abbrev pub same_state : StateMetadata → StateMetadata → Bool
same_state a b = decide (StateMetadata-discrete a b)

-- The comparison of a root with the new node that it names.
unfoldable pub validate_version_root : RootRecord → Option NodeRecord → Result WalError (Unit {0})
validate_version_root root none = ok tt
validate_version_root root (some node) = do
  expected ← map_err format_error (from_node root.node_id node)
  reject (not (same_root expected root))
      (invalid "v2 WAL version root disagrees with its new node metadata")

-- The body of the loop over the versions.
unfoldable pub validate_version :
    WalGeometry → WalGeometry → WalTransaction → ℕ → VersionRecord → Result WalError (Unit {0})
validate_version base next transaction local version = do
  expected_id ← version_id_for_local base.version_count local
  reject (not (version.version_id == expected_id))
      (invalid "v2 WAL version identifiers are not sequential")
  encoded ← map_err publication_error (encode_version version)
  reject (not (length encoded == wal_version_record_size))
      (invalid "v2 WAL T2V2 record width disagrees with schema")
  decoded ← map_err publication_error (decode_version encoded expected_id)
  reject (not (same_version decoded version))
      (invalid "v2 WAL version does not round-trip canonically")
  reject (leb next.node_count version.root.node_id)
      (invalid "v2 WAL version root references an uncommitted node")
  validate_version_root version.root (local_node base transaction version.root.node_id)

-- The loop of `validate_versions` from an index on.
unfoldable pub validate_versions_from :
    WalGeometry → WalGeometry → WalTransaction → ℕ → List VersionRecord → Result WalError (Unit {0})
validate_versions_from base next transaction local [] = ok tt
validate_versions_from base next transaction local (version ∷ versions) = do
  validate_version base next transaction local version
  validate_versions_from base next transaction (suc local) versions

-- `validate_versions`
unfoldable pub validate_versions :
    WalGeometry → WalGeometry → WalTransaction → Result WalError (Unit {0})
validate_versions base next transaction =
    validate_versions_from base next transaction 0 transaction.versions

-- `local_version_root`
unfoldable pub local_version_root : WalGeometry → WalTransaction → ℕ → Option RootRecord
local_version_root base transaction version_id =
    if ltb version_id base.version_count
    then none
    else elim (get_elem? transaction.versions (version_id - base.version_count)) [
      | none ↦ none
      | some version ↦ some version.root
    ]

-- The root of an optional version: found, absent from the checkpoint, or not local.
unfoldable pub optional_version_root :
    WalGeometry → WalTransaction → Option ℕ → Option (Option RootRecord)
optional_version_root base transaction none = some none
optional_version_root base transaction (some version) =
    elim (local_version_root base transaction version) [
      | none ↦ none
      | some root ↦ some (some root)
    ]

module _ ⦃sha : Sha256⦄ where
  -- The comparison of the state with the roots, when they are all local.
  unfoldable pub validate_state :
      StateMetadata
      → Option RootRecord
      → Option (Option RootRecord)
      → Option (Option RootRecord)
      → Result WalError (Unit {0})
  validate_state state none messages result = ok tt
  validate_state state (some identity) none result = ok tt
  validate_state state (some identity) (some messages) none = ok tt
  validate_state state (some identity) (some messages) (some result) = do
    expected ← map_err publication_error (checkpoint_state_metadata identity messages result)
    reject (not (same_state expected state))
        (invalid "v2 WAL checkpoint state commitment disagrees with local version roots")

  module _ ⦃text : Utf8⦄ where
    -- `validate_checkpoint`
    unfoldable pub validate_checkpoint :
        WalGeometry → WalGeometry → WalTransaction → Result WalError (Unit {0})
    validate_checkpoint base next transaction = do
      encoded ← map_err publication_error (encode_checkpoint transaction.checkpoint)
      decoded ← map_err publication_error (decode_checkpoint encoded next.version_count)
      reject (not (same_checkpoint decoded transaction.checkpoint))
          (invalid "v2 WAL checkpoint does not round-trip canonically")
      validate_state transaction.checkpoint.state
          (local_version_root base transaction transaction.checkpoint.identity_version)
          (optional_version_root base transaction transaction.checkpoint.messages_version)
          (optional_version_root base transaction transaction.checkpoint.result_version)

    -- `validate_transaction`
    unfoldable pub validate_transaction : WalGeometry → WalTransaction → Result WalError WalGeometry
    validate_transaction base transaction = do
      validate_base_geometry base
      payload_len ←
          try_from u64_max (length transaction.payload)
            (overflow "v2 WAL payload delta length exceeds u64")
      node_count ←
          try_from u64_max (length transaction.nodes)
            (overflow "v2 WAL node delta count exceeds u64")
      version_count ←
          try_from u64_max (length transaction.versions)
            (overflow "v2 WAL version delta count exceeds u64")
      next ← next_geometry_from_counts base payload_len node_count version_count
      validate_nodes base next transaction
      validate_versions base next transaction
      validate_checkpoint base next transaction
      ok next
