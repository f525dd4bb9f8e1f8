-- ===== src/HotWal/Contexts.antt =====
-- `CheckpointStoreError::durability_indeterminate` and `recovery_required`: the context that an error
-- retains, and how it goes with the class of the error.
use tulya_checkpoint_store.Prelude.{
  ◌≡◌, ◌≢◌, ◌↔◌, refl, Bool, true, false, String, Option, none, some, if◌then◌else◌,
}
use tulya_checkpoint_store.HotWal.Errors.{
  DurabilityOperation, IoError, from_raw_os_error, with_message, durability_indeterminate,
  recovery_required_from, recovery_required, StoreError, JsonCategory,
}
use tulya_checkpoint_store.HotWal.Classify.{
  FailureKind, indeterminate, recovery, capacity, io_failure, failure_kind, io_failure_kind,
  io_error_is_capacity, has_durability_indeterminate, has_recovery_required, json_failure_kind,
}

-- `embedded_durability_indeterminate`
unfoldable pub embedded_durability_indeterminate :
    IoError → Option (DurabilityOperation × String × IoError)
embedded_durability_indeterminate (durability_indeterminate kind operation path source) =
    some (operation, path, source)
embedded_durability_indeterminate _ = none

-- `CheckpointStoreError::durability_indeterminate`
unfoldable pub durability_context : StoreError → Option (DurabilityOperation × String × IoError)
unfolding embedded_durability_indeterminate
durability_context (StoreError.io error) = embedded_durability_indeterminate error
durability_context _ = none

-- `embedded_recovery_required`
unfoldable pub embedded_recovery_required : IoError → Option (String × Option IoError × Bool)
embedded_recovery_required (recovery_required_from kind path source committed) =
    some (path, some source, committed)
embedded_recovery_required (recovery_required kind path committed) = some (path, none, committed)
embedded_recovery_required _ = none

-- `CheckpointStoreError::recovery_required`
unfoldable pub recovery_context : StoreError → Option (String × Option IoError × Bool)
unfolding embedded_recovery_required
recovery_context (StoreError.io error) = embedded_recovery_required error
recovery_context _ = none

-- An I/O error without context is a capacity failure or an ordinary one.
ordinary :
    (full : Bool)
    → ((if full then capacity else io_failure) ≢ indeterminate)
      × ((if full then capacity else io_failure) ≢ recovery)
ordinary true = (λ h. absurd (cc h), λ h. absurd (cc h))
ordinary false = (λ h. absurd (cc h), λ h. absurd (cc h))

-- A class other than the expected one goes with no context, and the expected one with some.
without :
    {A : Type 0} {k expected : FailureKind}
    → k ≢ expected
    → (k ≡ expected) ↔ (◌≢◌ {A = Option A} none none)
without other = (λ h n. other h, λ h. absurd (h refl))

retains : {A : Type 0} {k : FailureKind} {a : A} → (k ≡ k) ↔ (some a ≢ none)
retains = (λ h n. absurd (cc n), λ h. refl)

-- An error is of the indeterminate class exactly if it retains the context of an operation whose
-- durability is unknown.
pub failure_kind-durability_context :
    (e : StoreError) → (failure_kind e ≡ indeterminate) ↔ (durability_context e ≢ none)
unfolding failure_kind io_failure_kind has_durability_indeterminate has_recovery_required
    json_failure_kind durability_context embedded_durability_indeterminate
failure_kind-durability_context
      (StoreError.io (durability_indeterminate kind operation path source)) =
    retains
failure_kind-durability_context
      (StoreError.io (recovery_required_from kind path source committed)) =
    without (λ h. absurd (cc h))
failure_kind-durability_context (StoreError.io (recovery_required kind path committed)) =
    without (λ h. absurd (cc h))
failure_kind-durability_context (StoreError.io (from_raw_os_error kind code)) =
    without ((ordinary (io_error_is_capacity (from_raw_os_error kind code))).0)
failure_kind-durability_context (StoreError.io (with_message kind message)) =
    without ((ordinary (io_error_is_capacity (with_message kind message))).0)
failure_kind-durability_context (StoreError.json JsonCategory.io) = without (λ h. absurd (cc h))
failure_kind-durability_context (StoreError.json JsonCategory.syntax) = without (λ h. absurd (cc h))
failure_kind-durability_context (StoreError.json JsonCategory.data_error) =
    without (λ h. absurd (cc h))
failure_kind-durability_context (StoreError.json JsonCategory.eof) = without (λ h. absurd (cc h))
failure_kind-durability_context (StoreError.format message) = without (λ h. absurd (cc h))
failure_kind-durability_context StoreError.writer_already_open = without (λ h. absurd (cc h))
failure_kind-durability_context StoreError.request_id_conflict = without (λ h. absurd (cc h))
failure_kind-durability_context StoreError.checkpoint_not_found = without (λ h. absurd (cc h))
failure_kind-durability_context StoreError.checkpoint_deleted = without (λ h. absurd (cc h))
failure_kind-durability_context StoreError.prune_requires_sealed_store =
    without (λ h. absurd (cc h))
failure_kind-durability_context StoreError.prune_requires_eager_recovery =
    without (λ h. absurd (cc h))
failure_kind-durability_context StoreError.reclaim_worker_already_running =
    without (λ h. absurd (cc h))

-- An error is of the recovery class exactly if it retains the context of a writer that must reopen.
pub failure_kind-recovery_context :
    (e : StoreError) → (failure_kind e ≡ recovery) ↔ (recovery_context e ≢ none)
unfolding failure_kind io_failure_kind has_durability_indeterminate has_recovery_required
    json_failure_kind recovery_context embedded_recovery_required
failure_kind-recovery_context
      (StoreError.io (durability_indeterminate kind operation path source)) =
    without (λ h. absurd (cc h))
failure_kind-recovery_context (StoreError.io (recovery_required_from kind path source committed)) =
    retains
failure_kind-recovery_context (StoreError.io (recovery_required kind path committed)) = retains
failure_kind-recovery_context (StoreError.io (from_raw_os_error kind code)) =
    without ((ordinary (io_error_is_capacity (from_raw_os_error kind code))).1)
failure_kind-recovery_context (StoreError.io (with_message kind message)) =
    without ((ordinary (io_error_is_capacity (with_message kind message))).1)
failure_kind-recovery_context (StoreError.json JsonCategory.io) = without (λ h. absurd (cc h))
failure_kind-recovery_context (StoreError.json JsonCategory.syntax) = without (λ h. absurd (cc h))
failure_kind-recovery_context (StoreError.json JsonCategory.data_error) =
    without (λ h. absurd (cc h))
failure_kind-recovery_context (StoreError.json JsonCategory.eof) = without (λ h. absurd (cc h))
failure_kind-recovery_context (StoreError.format message) = without (λ h. absurd (cc h))
failure_kind-recovery_context StoreError.writer_already_open = without (λ h. absurd (cc h))
failure_kind-recovery_context StoreError.request_id_conflict = without (λ h. absurd (cc h))
failure_kind-recovery_context StoreError.checkpoint_not_found = without (λ h. absurd (cc h))
failure_kind-recovery_context StoreError.checkpoint_deleted = without (λ h. absurd (cc h))
failure_kind-recovery_context StoreError.prune_requires_sealed_store = without (λ h. absurd (cc h))
failure_kind-recovery_context StoreError.prune_requires_eager_recovery =
    without (λ h. absurd (cc h))
failure_kind-recovery_context StoreError.reclaim_worker_already_running =
    without (λ h. absurd (cc h))
