-- ===== src/HotWal/Commit.antt =====
-- `HotWalCommitter`. The file is whatever implements `HotWalCommitIo`: a state and three calls on it.
-- Timings are not modelled.
use tulya_checkpoint_store.Prelude.{
  ℕ, zero, suc, ◌+◌, ◌-◌, Bool, true, false, String, Option, none, some, List, length, drop,
  is_empty, ltb, leb, ◌==◌, if◌then◌else◌, Result, ok, err, u64_max,
}
use tulya_checkpoint_store.HotWal.Errors.{
  wal_flush, wal_sync_data, invalid_input, invalid_data, write_zero, IoError, with_message,
  StoreError, durability_indeterminate_error, recovery_required_error,
}

-- The trait `HotWalCommitIo`.
pub record HotWalCommitIo (S : Type 0) : Type 0 where
  pub write : List ℕ → S → Result IoError ℕ × S
  pub flush : S → Result IoError (Unit {0}) × S
  pub sync_data : S → Result IoError (Unit {0}) × S

pub record HotWalCommitter : Type 0 where
  pub recovery_required : Bool

-- `HotWalCommitter::default`
abbrev pub fresh : HotWalCommitter
fresh = record { recovery_required = false }

-- An error of the source, or the end of the fuel of the write loop.
pub data CommitFault : Type 0 where
  store : StoreError → CommitFault
  out_of_fuel : CommitFault

-- `mark_recovery_required`
unfoldable pub mark_recovery_required : HotWalCommitter → HotWalCommitter
mark_recovery_required c = record { recovery_required = true }

-- `ensure_writable`
unfoldable pub ensure_writable : HotWalCommitter → String → Result StoreError (Unit {0})
ensure_writable c path =
    if c.recovery_required then err (recovery_required_error path none) else ok tt

-- What one round of the write loop decides: go on at a cursor, or stop with an error.
pub data Round : Type 0 where
  more : ℕ → Round
  stop : StoreError → HotWalCommitter → Round

-- The method `recovery_required_error`, which poisons the committer.
unfoldable pub poisoning_error : String → Option IoError → HotWalCommitter → Round
unfolding mark_recovery_required
poisoning_error path source c =
    stop (recovery_required_error path source) (mark_recovery_required c)

-- `write_failure`
unfoldable pub write_failure : String → ℕ → IoError → HotWalCommitter → Round
unfolding poisoning_error
write_failure path bytes_written source c =
    if bytes_written == 0
    then stop (StoreError.io source) c
    else poisoning_error path (some source) c

-- `match io.write(remaining)`
unfoldable pub after_write : String → ℕ → ℕ → Result IoError ℕ → HotWalCommitter → Round
unfolding write_failure
after_write path remaining_len written (err source) c = write_failure path written source c
after_write path remaining_len written (ok zero) c =
    write_failure path written (with_message write_zero "hot WAL write made no progress") c
after_write path remaining_len written (ok (suc k)) c =
    if leb (suc k) remaining_len
    then if leb (written + suc k) u64_max
      then more (written + suc k)
      else stop (StoreError.io (with_message invalid_data "hot WAL write cursor overflow")) c
    else poisoning_error path
        (some (with_message invalid_data "hot WAL writer reported more bytes than supplied")) c

module _ {S : Type 0} (io : HotWalCommitIo S) (path : String) where
  abbrev pub Outcome : Type 0
  Outcome = Result CommitFault (Unit {0}) × HotWalCommitter × S

  -- `while written < record.len()`; the cursor is below the length there, so that
  -- `record.get(written..)` is the rest of the record.
  unfoldable pub write_loop : List ℕ → ℕ → HotWalCommitter → S → ℕ → Outcome
  write_loop bytes zero c s written =
      if ltb written (length bytes) then (err out_of_fuel, c, s) else (ok tt, c, s)
  write_loop bytes (suc fuel) c s written =
      if ltb written (length bytes)
      then (let (r, s') = io.write (drop written bytes) s in
          elim (after_write path (length bytes - written) written r c) [
            | more written' ↦ write_loop bytes fuel c s' written'
            | stop e c' ↦ (err (store e), c', s')
          ])
      else (ok tt, c, s)

  unfoldable pub after_sync : Result IoError (Unit {0}) → HotWalCommitter → S → Outcome
  after_sync (err source) c s = (
    err (store (durability_indeterminate_error wal_sync_data path source)),
    mark_recovery_required c,
    s,
  )
  after_sync (ok _) c s = (ok tt, c, s)

  unfoldable pub after_flush : Result IoError (Unit {0}) → HotWalCommitter → S → Outcome
  after_flush (err source) c s = (
    err (store (durability_indeterminate_error wal_flush path source)),
    mark_recovery_required c,
    s,
  )
  after_flush (ok _) c s = let (r, s') = io.sync_data s in after_sync r c s'

  -- What follows the write loop.
  unfoldable pub after_loop : Outcome → Outcome
  after_loop (err e, c, s) = (err e, c, s)
  after_loop (ok _, c, s) = let (r, s') = io.flush s in after_flush r c s'

  -- `commit`
  unfoldable pub commit : HotWalCommitter → S → List ℕ → Outcome
  commit c s bytes = elim (ensure_writable c path) [
    | err e ↦ (err (store e), c, s)
    | ok _ ↦
        (if is_empty bytes
          then (
            err (
                store
                  (StoreError.io (with_message invalid_input "hot WAL commit record is empty"))),
            c,
            s,
          )
          else after_loop (write_loop bytes (length bytes) c s 0))
  ]
