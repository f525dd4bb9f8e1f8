-- ===== src/Recovery/Scan.antt =====
-- `recover_v2_hot_wal` of recovery_v2.rs.
use tulya_checkpoint_store.Prelude.{
  ℕ, zero, suc, List, [], ◌∷◌, String, Bool, true, false, ◌&&◌, ltb, min, length, take, drop,
  if◌then◌else◌, Result, ok, err, ◌>>=◌, ◌>>◌, reject, map_err, checked_add, u64_max, not,
}
use tulya_checkpoint_store.Format.Records.{Sha256}
use tulya_checkpoint_store.Format.Codec.{same_bytes}
use tulya_checkpoint_store.Format.Reads.{get_or_err}
use tulya_checkpoint_store.Publication.Records.{Utf8}
use tulya_checkpoint_store.HotWal.Authority.{all_zero}
use tulya_checkpoint_store.HotWal.Frame.{
  HotFrameError, HotFrameProbe, complete, torn, probe_hot_frame,
}
use tulya_checkpoint_store.Apply.State.{
  ApplyError, ApplyOutcome, applied, replayed, retired_request, CommittedState,
}
use tulya_checkpoint_store.Apply.Commits.{apply_commit}

-- `V2RecoveryError`
pub data RecoveryError : Type 0 where
  apply_error : ApplyError → RecoveryError
  frame_error : HotFrameError → RecoveryError
  invalid overflow : String → RecoveryError

-- The errors of the source, and the end of the fuel that bounds the scan here.
pub data RecoveryFault : Type 0 where
  raised : RecoveryError → RecoveryFault
  out_of_fuel : RecoveryFault

-- `V2RecoveryStop`
pub data RecoveryStop : Type 0 where
  end_of_bytes : RecoveryStop
  zero_reserve : RecoveryStop
  torn_final_commit : RecoveryStop

-- `V2RecoveredHotWal`
pub record RecoveredHotWal : Type 0 where
  pub state : CommittedState
  pub logical_tail : ℕ
  pub commit_count : ℕ
  pub stop : RecoveryStop

-- b"T2W2"
abbrev pub structural_magic : List ℕ
structural_magic = b'T' ∷ b'2' ∷ b'W' ∷ b'2' ∷ []

-- `starts_with_zero_reserve`
unfoldable pub starts_with_zero_reserve : List ℕ → Bool
starts_with_zero_reserve bytes =
    let width = min (length bytes) 4 in ltb 0 width && all_zero (take width bytes)

-- What a turn of the loop leaves: a stop, or the loop's variables for the next turn.
pub data Turn : Type 0 where
  stopped : RecoveryStop → Turn
  advanced : (cursor commit_count : ℕ) → CommittedState → Turn

-- `match apply_v2_commit(…)?`
unfoldable pub applied_state : ApplyOutcome × CommittedState → Result RecoveryError CommittedState
applied_state (applied ordinal, state) = ok state
applied_state (replayed ordinal, state) =
    err (invalid "v2 WAL contains a duplicate physical retry commit")
applied_state (retired_request, state) =
    err (invalid "v2 WAL commit resolves to a retired request identity")

-- The result of the loop's variables.
abbrev pub recovered : CommittedState → ℕ → ℕ → RecoveryStop → RecoveredHotWal
recovered state cursor commit_count stop = record {
  state = state;
  logical_tail = cursor;
  commit_count = commit_count;
  stop = stop;
}

module _ ⦃sha : Sha256⦄ ⦃text : Utf8⦄ where
  -- The match on the probe.
  unfoldable pub take_frame :
      List ℕ → ℕ → ℕ → CommittedState → HotFrameProbe → Result RecoveryError Turn
  take_frame remaining cursor commit_count state torn = ok (stopped torn_final_commit)
  take_frame remaining cursor commit_count state (complete commit_len frame_len) = do
    commit ← get_or_err remaining 0 commit_len (invalid "v2 commit range exceeds WAL bytes")
    outcome ← map_err apply_error (apply_commit state commit)
    state' ← applied_state outcome
    cursor' ← checked_add u64_max cursor frame_len (overflow "v2 recovery cursor exceeds usize")
    count' ← checked_add u64_max commit_count 1 (overflow "v2 recovery commit count exceeds u64")
    ok (advanced cursor' count' state')

  -- A frame at the cursor.
  unfoldable pub probe_turn : List ℕ → ℕ → ℕ → CommittedState → Result RecoveryError Turn
  probe_turn remaining cursor commit_count state = do
    reject (same_bytes (take 4 remaining) structural_magic)
        (invalid "bare T2W2 structural transaction cannot be recovered as a commit")
    probe ← map_err frame_error (probe_hot_frame remaining)
    take_frame remaining cursor commit_count state probe

  -- The zero reserve at the cursor.
  unfoldable pub reserve_turn : List ℕ → Result RecoveryError Turn
  reserve_turn remaining = do
    reject (not (all_zero remaining))
        (invalid "v2 WAL zero reserve contains nonzero trailing bytes")
    ok (stopped zero_reserve)

  -- The body of the loop, on `bytes.get(cursor..)`.
  unfoldable pub recovery_turn : List ℕ → ℕ → ℕ → CommittedState → Result RecoveryError Turn
  recovery_turn remaining cursor commit_count state =
      if starts_with_zero_reserve remaining
      then reserve_turn remaining
      else probe_turn remaining cursor commit_count state

  -- The loop, on fuel.
  unfoldable pub recovery_loop :
      ℕ → List ℕ → ℕ → ℕ → CommittedState → Result RecoveryFault RecoveredHotWal
  recovery_loop zero bytes cursor commit_count state = err out_of_fuel
  recovery_loop (suc fuel) bytes cursor commit_count state = elim (ltb cursor (length bytes)) [
    | false ↦ ok (recovered state cursor commit_count end_of_bytes)
    | true ↦
        map_err raised (recovery_turn (drop cursor bytes) cursor commit_count state) >>= λ turn.
        elim turn [
          | stopped stop ↦ ok (recovered state cursor commit_count stop)
          | advanced cursor' count' state' ↦ recovery_loop fuel bytes cursor' count' state'
        ]
  ]

  -- `recover_v2_hot_wal`; every turn but the last moves the cursor, so the bytes bound the turns.
  unfoldable pub recover_hot_wal : List ℕ → CommittedState → Result RecoveryFault RecoveredHotWal
  recover_hot_wal bytes state = recovery_loop (suc (length bytes)) bytes 0 0 state
