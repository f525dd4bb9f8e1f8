-- ===== src/Apply/State.antt =====
-- The errors, outcomes and committed state of apply_v2.rs.
use tulya_checkpoint_store.Prelude.{
  ℕ, List, [], String, Bool, ◌&&◌, ◌||◌, ltb, is_empty, length, Result, ok, ◌>>=◌, reject, try_from,
  u64_max,
}
use tulya_checkpoint_store.Format.Records.{FormatError, NodeRecord}
use tulya_checkpoint_store.Format.Codec.{same_bytes}
use tulya_checkpoint_store.Publication.Records.{PublicationError, VersionRecord, CheckpointRecord}
use tulya_checkpoint_store.Wal.Records.{WalGeometry}
use tulya_checkpoint_store.Commit.Records.{CommitError}

-- `V2ApplyError`, without `Capacity`, which is a failed allocation
pub data ApplyError : Type 0 where
  commit_error : CommitError → ApplyError
  format_error : FormatError → ApplyError
  publication_error : PublicationError → ApplyError
  invalid overflow : String → ApplyError
  request_conflict : ApplyError

-- `V2RequestStatus`
pub data RequestStatus : Type 0 where
  new : RequestStatus
  replay : (checkpoint_ordinal : ℕ) → RequestStatus
  retired : RequestStatus

-- `V2ApplyOutcome`
pub data ApplyOutcome : Type 0 where
  applied : (checkpoint_ordinal : ℕ) → ApplyOutcome
  replayed : (checkpoint_ordinal : ℕ) → ApplyOutcome
  retired_request : ApplyOutcome

-- `V2RequestRecord`
pub record RequestRecord : Type 0 where
  pub operation_digest : List ℕ
  pub checkpoint_ordinal : ℕ

-- A thread and a checkpoint in it.
abbrev pub CheckpointKey : Type 0
CheckpointKey = List ℕ × List ℕ

abbrev pub same_key : CheckpointKey → CheckpointKey → Bool
same_key a b = same_bytes a.0 b.0 && same_bytes a.1 b.1

-- `V2CommittedState`
pub record CommittedState : Type 0 where
  pub payload : List ℕ
  pub nodes : List NodeRecord
  pub versions : List VersionRecord
  pub checkpoints : List CheckpointRecord
  pub checkpoint_ordinals : List (CheckpointKey × ℕ)
  pub request_records : List (List ℕ × RequestRecord)
  pub retired_requests : List (List ℕ × List ℕ)
  pub deleted_checkpoints : List CheckpointKey

-- `V2CommittedState::default()`
abbrev pub default_state : CommittedState
default_state = record {
  payload = [];
  nodes = [];
  versions = [];
  checkpoints = [];
  checkpoint_ordinals = [];
  request_records = [];
  retired_requests = [];
  deleted_checkpoints = [];
}

abbrev pub max_request_id_bytes : ℕ
max_request_id_bytes = 4096

-- `validate_request_id`
unfoldable pub validate_request_id : List ℕ → Result ApplyError (Unit {0})
validate_request_id request_id =
    reject (is_empty request_id || ltb max_request_id_bytes (length request_id))
      (invalid "v2 request id is empty or exceeds the byte limit")

-- `V2CommittedState::geometry`
unfoldable pub geometry : CommittedState → Result ApplyError WalGeometry
geometry state = do
  payload_len ←
      try_from u64_max (length state.payload) (overflow "v2 state payload length exceeds u64")
  node_count ← try_from u64_max (length state.nodes) (overflow "v2 state node count exceeds u64")
  version_count ←
      try_from u64_max (length state.versions) (overflow "v2 state version count exceeds u64")
  checkpoint_count ←
      try_from u64_max (length state.checkpoints) (overflow "v2 state checkpoint count exceeds u64")
  ok (record {
    payload_len = payload_len;
    node_count = node_count;
    version_count = version_count;
    checkpoint_count = checkpoint_count;
  })
