-- ===== src/Apply/Requests.antt =====
-- `classify_request` and `retire_request` of apply_v2.rs.
use tulya_checkpoint_store.Prelude.{
  ℕ, List, Option, none, some, if◌then◌else◌, Result, ok, err, ◌>>=◌, ◌>>◌, reject,
}
use tulya_checkpoint_store.Format.Codec.{same_bytes}
use tulya_checkpoint_store.Apply.Maps.{lookup, insert, remove, is_some}
use tulya_checkpoint_store.Apply.State.{
  ApplyError, invalid, request_conflict, RequestStatus, new, replay, retired, RequestRecord,
  CommittedState, validate_request_id,
}

-- The two maps, looked up in their order.
unfoldable pub classify_found :
    Option RequestRecord → Option (List ℕ) → List ℕ → Result ApplyError RequestStatus
classify_found (some found) retired_digest operation_digest =
    if same_bytes found.operation_digest operation_digest
    then ok (replay found.checkpoint_ordinal)
    else err request_conflict
classify_found none (some retired_digest) operation_digest =
    if same_bytes retired_digest operation_digest then ok retired else err request_conflict
classify_found none none operation_digest = ok new

-- `classify_request`
unfoldable pub classify_request : CommittedState → List ℕ → List ℕ → Result ApplyError RequestStatus
classify_request state request_id operation_digest = do
  validate_request_id request_id
  classify_found (lookup same_bytes request_id state.request_records)
      (lookup same_bytes request_id state.retired_requests) operation_digest

-- `.get(request_id).ok_or(…)?.operation_digest`
unfoldable pub active_digest : Option RequestRecord → Result ApplyError (List ℕ)
active_digest none = err (invalid "v2 active request identity is absent")
active_digest (some found) = ok found.operation_digest

-- `retire_request`; its errors leave the state as it was.
unfoldable pub retire_request : CommittedState → List ℕ → Result ApplyError CommittedState
retire_request state request_id = do
  validate_request_id request_id
  reject (is_some (lookup same_bytes request_id state.retired_requests))
      (invalid "v2 request identity is already retired")
  operation_digest ← active_digest (lookup same_bytes request_id state.request_records)
  ok (record {
    payload = state.payload;
    nodes = state.nodes;
    versions = state.versions;
    checkpoints = state.checkpoints;
    checkpoint_ordinals = state.checkpoint_ordinals;
    request_records = remove same_bytes request_id state.request_records;
    retired_requests = insert same_bytes request_id operation_digest state.retired_requests;
    deleted_checkpoints = state.deleted_checkpoints;
  })
