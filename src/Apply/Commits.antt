-- ===== src/Apply/Commits.antt =====
-- `apply_v2_commit` of apply_v2.rs.
use tulya_checkpoint_store.Prelude.{
  ℕ, List, [], ◌∷◌, ◌++◌, Option, none, some, not, Result, ok, ◌>>=◌, ◌>>◌, reject, map_err,
}
use tulya_checkpoint_store.Format.Records.{Sha256}
use tulya_checkpoint_store.Format.Codec.{same_bytes}
use tulya_checkpoint_store.Publication.Records.{Utf8}
use tulya_checkpoint_store.Wal.Geometry.{same_geometry}
use tulya_checkpoint_store.Commit.Records.{DecodedCommit}
use tulya_checkpoint_store.Commit.Codec.{decode_commit}
use tulya_checkpoint_store.Apply.Maps.{insert}
use tulya_checkpoint_store.Apply.State.{
  ApplyError, commit_error, invalid, RequestStatus, new, replay, retired, ApplyOutcome, applied,
  replayed, retired_request, RequestRecord, same_key, CommittedState, geometry,
}
use tulya_checkpoint_store.Apply.Requests.{classify_request}
use tulya_checkpoint_store.Apply.Validate.{key_of, validate_against_committed_state}

-- The status of the request of a commit, which is new where there is none.
unfoldable pub request_status :
    CommittedState → Option (List ℕ) → List ℕ → Result ApplyError RequestStatus
request_status state none operation_digest = ok new
request_status state (some request_id) operation_digest =
    classify_request state request_id operation_digest

-- The insertion of the request of a commit.
unfoldable pub record_request :
    Option (List ℕ) → List ℕ → ℕ → List (List ℕ × RequestRecord) → List (List ℕ × RequestRecord)
record_request none operation_digest checkpoint_ordinal request_records = request_records
record_request (some request_id) operation_digest checkpoint_ordinal request_records =
    insert same_bytes request_id
      (record { operation_digest = operation_digest; checkpoint_ordinal = checkpoint_ordinal })
      request_records

-- The state with a validated commit in it.
unfoldable pub commit_state : CommittedState → DecodedCommit → ℕ → CommittedState
commit_state state decoded checkpoint_ordinal =
    let transaction = decoded.wal.transaction in
    record {
      payload = state.payload ++ transaction.payload;
      nodes = state.nodes ++ transaction.nodes;
      versions = state.versions ++ transaction.versions;
      checkpoints = state.checkpoints ++ (transaction.checkpoint ∷ []);
      checkpoint_ordinals =
          insert same_key (key_of transaction.checkpoint) checkpoint_ordinal
            state.checkpoint_ordinals;
      request_records =
          record_request decoded.request_id decoded.operation_digest checkpoint_ordinal
            state.request_records;
      retired_requests = state.retired_requests;
      deleted_checkpoints = state.deleted_checkpoints;
    }

module _ ⦃sha : Sha256⦄ where
  -- A commit whose request is new.
  unfoldable pub apply_new :
      CommittedState → DecodedCommit → Result ApplyError (ApplyOutcome × CommittedState)
  apply_new state decoded = do
    current ← geometry state
    reject (not (same_geometry decoded.encoded_base current))
        (invalid "v2 commit starting geometry disagrees with committed state")
    validate_against_committed_state state decoded
    ok (applied current.checkpoint_count, commit_state state decoded current.checkpoint_count)

  -- `match state.classify_request(…)?`
  unfoldable pub apply_status :
      CommittedState
      → DecodedCommit
      → RequestStatus
      → Result ApplyError (ApplyOutcome × CommittedState)
  apply_status state decoded (replay checkpoint_ordinal) = ok (replayed checkpoint_ordinal, state)
  apply_status state decoded retired = ok (retired_request, state)
  apply_status state decoded new = apply_new state decoded

  -- `apply_v2_commit`; the outcome and the state, which its errors leave as it was.
  unfoldable pub apply_commit :
      ⦃text : Utf8⦄ → CommittedState → List ℕ → Result ApplyError (ApplyOutcome × CommittedState)
  apply_commit state bytes = do
    decoded ← map_err commit_error (decode_commit bytes)
    status ← request_status state decoded.request_id decoded.operation_digest
    apply_status state decoded status
