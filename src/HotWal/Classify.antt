-- ===== src/HotWal/Classify.antt =====
-- `CheckpointStoreError::failure_kind`: the behavioural class of a failure.
use tulya_checkpoint_store.Prelude.{
  ℕ, ◌≡◌, refl, Bool, true, false, ◌||◌, String, Option, none, some, ◌==◌, if◌then◌else◌,
}
use tulya_checkpoint_store.HotWal.Errors.{
  DurabilityOperation, ErrorKind, out_of_memory, IoError, from_raw_os_error, with_message,
  durability_indeterminate, recovery_required_from, recovery_required, JsonCategory, StoreError,
  kind_of, durability_indeterminate_error, recovery_required_error,
  recovery_required_after_commit_error,
}

-- `CheckpointStoreFailureKind`
pub data FailureKind : Type 0 where
  corruption unsupported_format request_conflict deleted stale lock_busy capacity : FailureKind
  io_failure indeterminate recovery precondition legacy_unclassified : FailureKind

-- `io::Error::raw_os_error`
unfoldable pub raw_os_error : IoError → Option ℕ
raw_os_error (from_raw_os_error kind code) = some code
raw_os_error (with_message kind message) = none
raw_os_error (durability_indeterminate kind operation path source) = none
raw_os_error (recovery_required_from kind path source committed) = none
raw_os_error (recovery_required kind path committed) = none

unfoldable pub is_out_of_memory : ErrorKind → Bool
is_out_of_memory out_of_memory = true
is_out_of_memory _ = false

-- `io_error_is_capacity` on Unix, where 28 is ENOSPC.
unfoldable pub io_error_is_capacity : IoError → Bool
unfolding is_out_of_memory kind_of raw_os_error
io_error_is_capacity error =
    is_out_of_memory (kind_of error)
    || elim (raw_os_error error) [ none ↦ false | some code ↦ code == 28 ]

-- `embedded_durability_indeterminate(error).is_some()`
unfoldable pub has_durability_indeterminate : IoError → Bool
has_durability_indeterminate (durability_indeterminate kind operation path source) = true
has_durability_indeterminate _ = false

-- `embedded_recovery_required(error).is_some()`
unfoldable pub has_recovery_required : IoError → Bool
has_recovery_required (recovery_required_from kind path source committed) = true
has_recovery_required (recovery_required kind path committed) = true
has_recovery_required _ = false

-- The arms of `failure_kind` for an I/O error, in their order.
unfoldable pub io_failure_kind : IoError → FailureKind
unfolding has_durability_indeterminate has_recovery_required io_error_is_capacity
io_failure_kind error =
    if has_durability_indeterminate error
    then indeterminate
    else if has_recovery_required error
    then recovery
    else if io_error_is_capacity error
    then capacity
    else io_failure

unfoldable pub json_failure_kind : JsonCategory → FailureKind
json_failure_kind JsonCategory.io = io_failure
json_failure_kind JsonCategory.syntax = corruption
json_failure_kind JsonCategory.data_error = corruption
json_failure_kind JsonCategory.eof = corruption

unfoldable pub failure_kind : StoreError → FailureKind
unfolding io_failure_kind json_failure_kind
failure_kind (StoreError.io error) = io_failure_kind error
failure_kind (StoreError.json category) = json_failure_kind category
failure_kind StoreError.writer_already_open = lock_busy
failure_kind StoreError.reclaim_worker_already_running = lock_busy
failure_kind StoreError.request_id_conflict = request_conflict
failure_kind StoreError.checkpoint_not_found = stale
failure_kind StoreError.checkpoint_deleted = deleted
failure_kind StoreError.prune_requires_sealed_store = precondition
failure_kind StoreError.prune_requires_eager_recovery = precondition
failure_kind (StoreError.format message) = legacy_unclassified

-- The wrappers are classified by what they record, whatever failure they wrap: a full disk or an
-- earlier wrapper inside one does not show through.
pub wrappers_classify :
    (operation : DurabilityOperation) (path : String) (source : IoError) (cause : Option IoError)
    → (failure_kind (durability_indeterminate_error operation path source) ≡ indeterminate)
      × (failure_kind (recovery_required_error path cause) ≡ recovery)
      × (failure_kind (recovery_required_after_commit_error path cause) ≡ recovery)
unfolding failure_kind durability_indeterminate_error recovery_required_error
    recovery_required_after_commit_error
wrappers_classify operation path source none = (refl, refl, refl)
wrappers_classify operation path source (some cause) = (refl, refl, refl)
