-- ===== src/HotWal/Errors.antt =====
-- The errors of the checkpoint store: `io::Error` with the context that it may embed,
-- `CheckpointStoreError`, and the constructors of error_classification.rs.
use tulya_checkpoint_store.Prelude.{ℕ, Bool, true, false, String, Option, none, some}

-- `DurabilityOperation`
pub data DurabilityOperation : Type 0 where
  wal_flush wal_sync_data file_sync_all rename directory_sync : DurabilityOperation

-- `io::ErrorKind`, the kinds that the source names and the others by a number.
pub data ErrorKind : Type 0 where
  out_of_memory invalid_input invalid_data write_zero other : ErrorKind
  system : ℕ → ErrorKind

-- `io::Error` is an operating-system error or a kind with a payload; `DurabilityIndeterminate` and
-- `RecoveryRequired` are the payloads that the store looks for. The source of the latter is
-- optional, so it has two constructors.
pub data IoError : Type 0 where
  from_raw_os_error : (kind : ErrorKind) → (code : ℕ) → IoError
  with_message : (kind : ErrorKind) → String → IoError
  durability_indeterminate :
      (kind : ErrorKind) → DurabilityOperation → (path : String) → (source : IoError) → IoError
  recovery_required_from :
      (kind : ErrorKind) → (path : String) → (source : IoError) → (committed : Bool) → IoError
  recovery_required : (kind : ErrorKind) → (path : String) → (committed : Bool) → IoError

-- `serde_json::error::Category`
pub data JsonCategory : Type 0 where
  io syntax data_error eof : JsonCategory

-- `CheckpointStoreError`; a JSON error is the category that it is classified by.
pub data StoreError : Type 0 where
  io : IoError → StoreError
  json : JsonCategory → StoreError
  format : String → StoreError
  writer_already_open request_id_conflict checkpoint_not_found checkpoint_deleted : StoreError
  prune_requires_sealed_store prune_requires_eager_recovery : StoreError
  reclaim_worker_already_running : StoreError

-- `io::Error::kind`
unfoldable pub kind_of : IoError → ErrorKind
kind_of (from_raw_os_error kind code) = kind
kind_of (with_message kind message) = kind
kind_of (durability_indeterminate kind operation path source) = kind
kind_of (recovery_required_from kind path source committed) = kind
kind_of (recovery_required kind path committed) = kind

-- `durability_indeterminate_error`
unfoldable pub durability_indeterminate_error : DurabilityOperation → String → IoError → StoreError
durability_indeterminate_error operation path source =
    StoreError.io (durability_indeterminate (kind_of source) operation path source)

-- `recovery_required_error`, and the same after committed authority.
unfoldable pub recovery_error : Bool → String → Option IoError → StoreError
recovery_error committed path none = StoreError.io (recovery_required other path committed)
recovery_error committed path (some source) =
    StoreError.io (recovery_required_from (kind_of source) path source committed)

unfoldable pub recovery_required_error : String → Option IoError → StoreError
unfolding recovery_error
recovery_required_error path source = recovery_error false path source

unfoldable pub recovery_required_after_commit_error : String → Option IoError → StoreError
unfolding recovery_error
recovery_required_after_commit_error path source = recovery_error true path source

-- `capacity_error`
unfoldable pub capacity_error : String → StoreError
capacity_error message = StoreError.io (with_message out_of_memory message)
