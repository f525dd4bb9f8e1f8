-- ===== src/Tests/CommitWitnesses.antt =====
-- The theorems on publication records, commits, frames, the committed state and the recovery, at the
-- first transaction.
use tulya_checkpoint_store.Prelude.{
  ℕ, ◌+◌, get_elem?, length-append, ◌≤◌, ◌≡◌, ◌≢◌, refl, List, [], ◌∷◌, ◌++◌, some, ok, err, arith,
  length, take, replicate, append-nil, ap,
}
use tulya_checkpoint_store.Publication.Version.{encode_version, decode_version}
use tulya_checkpoint_store.Publication.VersionLaws.{decode_version-encode_version}
use tulya_checkpoint_store.Publication.Checkpoint.{encode_checkpoint, decode_checkpoint}
use tulya_checkpoint_store.Publication.CheckpointLaws.{decode_checkpoint-encode_checkpoint}
use tulya_checkpoint_store.Wal.Records.{DecodedWalTransaction}
use tulya_checkpoint_store.Wal.Validate.{validate_transaction}
use tulya_checkpoint_store.Wal.Codec.{encode_transaction, decode_transaction}
use tulya_checkpoint_store.Wal.RoundTrip.{decode_transaction-encode_transaction}
use tulya_checkpoint_store.Wal.Seal.{GeometryFits}
use tulya_checkpoint_store.Publication.Records.{none_version}
use tulya_checkpoint_store.Commit.Records.{DecodedCommit}
use tulya_checkpoint_store.Commit.Codec.{request_operation_digest, encode_commit, decode_commit}
use tulya_checkpoint_store.Commit.RoundTrip.{decode_commit-encode_commit}
use tulya_checkpoint_store.Commit.Bounded.{decode_commit-Bounded}
use tulya_checkpoint_store.HotWal.Frame.{complete, probe_hot_frame, invalid_frame, commit_magic}
use tulya_checkpoint_store.HotWal.FrameEncode.{encode_hot_frame}
use tulya_checkpoint_store.HotWal.FrameWrites.{
  probe_hot_frame-encode_hot_frame, probe_hot_frame_short_write,
}
use tulya_checkpoint_store.Apply.State.{
  replayed, replay, retired, RequestRecord, default_state, geometry,
}
use tulya_checkpoint_store.Apply.Requests.{classify_request, retire_request}
use tulya_checkpoint_store.Apply.Commits.{apply_commit}
use tulya_checkpoint_store.Apply.Replays.{
  apply_commit_advances, apply_commit_twice, classify_request-retire_request,
}
use tulya_checkpoint_store.Recovery.Scan.{out_of_fuel, torn_final_commit, recover_hot_wal}
use tulya_checkpoint_store.Recovery.Fuel.{recover_hot_wal_ends}
use tulya_checkpoint_store.Recovery.Turns.{empty, written, torn_frame}
use tulya_checkpoint_store.Recovery.Logs.{recover_hot_wal-Log}
use tulya_checkpoint_store.HotWal.TornFrames.{cut_frame, length-cut_frame}
use tulya_checkpoint_store.Recovery.Crash.{recover_hot_wal-cut_frame}
use tulya_checkpoint_store.Tests.Fixtures.{checksum_sha, ascii_text, value_or, succeeds}
use tulya_checkpoint_store.Tests.Samples.{
  sample_base, sample_transaction, sample_checkpoint, sample_version, sample_request, sample_commit,
  sample_frame, sample_decoded, sample_torn, committed_state, retired_state,
}
use tulya_checkpoint_store.Tests.CommitRuns.{
  version_encodes, checkpoint_encodes, transaction_encodes, commit_encodes, commit_decodes,
  frame_encodes, request_retires, decoded_request, commit_outcome, root_commitment,
  state_commitment, state_len, torn_probed, torn_starts, log_parts,
}

decode_version-encode_version_example :
    decode_version (value_or [] (encode_version sample_version)) 0 ≡ ok sample_version
decode_version-encode_version_example =
    decode_version-encode_version sample_version
      (omega arith, omega arith, omega arith, omega arith, omega arith, root_commitment)
      (omega arith) (succeeds [] (encode_version sample_version) version_encodes)

decode_checkpoint-encode_checkpoint_example :
    decode_checkpoint (value_or [] (encode_checkpoint sample_checkpoint)) 1 ≡ ok sample_checkpoint
decode_checkpoint-encode_checkpoint_example =
    decode_checkpoint-encode_checkpoint sample_checkpoint 1
      (omega arith, omega (arith, state_len), state_commitment, refl, refl, refl)
      (omega arith, λ v h. absurd (cc h), λ v h. absurd (cc h)) (omega arith)
      (succeeds [] (encode_checkpoint sample_checkpoint) checkpoint_encodes)

base_fits : GeometryFits sample_base
base_fits = (omega arith, omega arith, omega arith, omega arith)

decode_transaction-encode_transaction_example :
    (decoded : DecodedWalTransaction) × (decode_transaction
        (value_or [] (encode_transaction sample_base sample_transaction))
        sample_base
      ≡ ok decoded)
    × (decoded.transaction ≡ sample_transaction)
    × (validate_transaction sample_base sample_transaction ≡ ok decoded.next_geometry)
decode_transaction-encode_transaction_example =
    decode_transaction-encode_transaction sample_base sample_transaction base_fits
      (succeeds [] (encode_transaction sample_base sample_transaction) transaction_encodes)

decode_commit-encode_commit_example :
    (decoded : DecodedCommit) × (decode_commit sample_commit ≡ ok decoded)
    × (decoded.encoded_base ≡ sample_base)
    × (decoded.wal.transaction ≡ sample_transaction)
    × (validate_transaction sample_base sample_transaction ≡ ok decoded.wal.next_geometry)
    × (decoded.request_id ≡ some sample_request)
    × (request_operation_digest (some sample_request) sample_checkpoint
        ≡ ok decoded.operation_digest)
decode_commit-encode_commit_example =
    decode_commit-encode_commit sample_base sample_transaction (some sample_request) base_fits (
      succeeds [] (encode_commit sample_base sample_transaction (some sample_request))
        commit_encodes)

decoded_commit : decode_commit sample_commit ≡ ok sample_decoded
decoded_commit = succeeds _ (decode_commit sample_commit) commit_decodes

decode_commit-Bounded_example :
    (sample_decoded.wal.next_geometry.payload_len
      ≡ sample_decoded.encoded_base.payload_len + length sample_decoded.wal.transaction.payload)
    × (sample_decoded.wal.next_geometry.node_count
        ≡ sample_decoded.encoded_base.node_count + length sample_decoded.wal.transaction.nodes)
    × (sample_decoded.wal.next_geometry.version_count
        ≡ sample_decoded.encoded_base.version_count
          + length sample_decoded.wal.transaction.versions)
    × (sample_decoded.wal.next_geometry.checkpoint_count
        ≡ sample_decoded.encoded_base.checkpoint_count + 1)
    × GeometryFits sample_decoded.wal.next_geometry
    × (sample_decoded.wal.next_geometry.version_count ≤ none_version)
decode_commit-Bounded_example = decode_commit-Bounded sample_commit decoded_commit

encoded_frame : encode_hot_frame sample_commit ≡ ok sample_frame
encoded_frame = succeeds [] (encode_hot_frame sample_commit) frame_encodes

probe_hot_frame-encode_hot_frame_example :
    (probe_hot_frame (sample_frame ++ sample_torn)
      ≡ ok (complete (length sample_commit) (length sample_frame)))
    × (take (length sample_commit) (sample_frame ++ sample_torn) ≡ sample_commit)
probe_hot_frame-encode_hot_frame_example =
    probe_hot_frame-encode_hot_frame sample_commit sample_torn encoded_frame

probe_hot_frame_short_write_example :
    probe_hot_frame (take 3 commit_magic ++ replicate 5 0)
    ≡ err (invalid_frame "v2 hot frame commit magic mismatch")
probe_hot_frame_short_write_example =
    probe_hot_frame_short_write 3 5 (omega arith) (omega arith) (omega arith)

apply_commit_advances_example :
    (decoded : DecodedCommit) × (decode_commit sample_commit ≡ ok decoded)
    × (geometry default_state ≡ ok decoded.encoded_base)
    × (geometry committed_state ≡ ok decoded.wal.next_geometry)
    × (0 ≡ length default_state.checkpoints)
    × (committed_state.payload ≡ default_state.payload ++ decoded.wal.transaction.payload)
    × (committed_state.nodes ≡ default_state.nodes ++ decoded.wal.transaction.nodes)
    × (committed_state.versions ≡ default_state.versions ++ decoded.wal.transaction.versions)
    × (committed_state.checkpoints
        ≡ default_state.checkpoints ++ (decoded.wal.transaction.checkpoint ∷ []))
apply_commit_advances_example = apply_commit_advances default_state sample_commit commit_outcome

apply_commit_twice_example :
    apply_commit committed_state sample_commit ≡ ok (replayed 0, committed_state)
apply_commit_twice_example =
    apply_commit_twice default_state sample_commit sample_decoded sample_request decoded_commit
      decoded_request commit_outcome

retires : retire_request committed_state sample_request ≡ ok retired_state
retires = succeeds default_state (retire_request committed_state sample_request) request_retires

classify_request-retire_request_example :
    (found : RequestRecord) × (classify_request committed_state sample_request
        found.operation_digest
      ≡ ok (replay found.checkpoint_ordinal))
    × (classify_request retired_state sample_request found.operation_digest ≡ ok retired)
    × ((other digest : List ℕ)
        → other ≢ sample_request
        → classify_request retired_state other digest
          ≡ classify_request committed_state other digest)
classify_request-retire_request_example =
    classify_request-retire_request committed_state sample_request retires

recover_hot_wal_ends_example :
    recover_hot_wal (sample_frame ++ sample_torn) default_state ≢ err out_of_fuel
recover_hot_wal_ends_example = recover_hot_wal_ends (sample_frame ++ sample_torn) default_state

recover_hot_wal-Log_example :
    recover_hot_wal ((sample_frame ++ []) ++ sample_torn) default_state
    ≡ ok (record {
      state = committed_state;
      logical_tail = length (sample_frame ++ []);
      commit_count = 1;
      stop = torn_final_commit;
    })
recover_hot_wal-Log_example =
    recover_hot_wal-Log default_state committed_state (sample_frame ++ []) sample_torn 1
      torn_final_commit
      (written default_state sample_commit sample_frame 0 committed_state [] 0 committed_state
        encoded_frame commit_outcome (empty committed_state))
      (torn_frame sample_torn (omega arith) torn_starts refl torn_probed)
      (omega (arith, log_parts.0, ap (λ l. length (l ++ sample_torn)) (append-nil sample_frame)))

-- The frame was written again, and 200 bytes of it reached the reserve.
cut_partial : take (length sample_frame) (cut_frame 200 300 sample_frame) ≢ sample_frame
cut_partial e =
    let same = ap (λ l. get_elem? l 447) e in absurd (cc (same, log_parts.2, log_parts.3))

recover_hot_wal-cut_frame_example :
    recover_hot_wal ((sample_frame ++ []) ++ cut_frame 200 300 sample_frame) default_state
    ≡ ok (record {
      state = committed_state;
      logical_tail = length (sample_frame ++ []);
      commit_count = 1;
      stop = torn_final_commit;
    })
recover_hot_wal-cut_frame_example =
    recover_hot_wal-cut_frame default_state committed_state (sample_frame ++ []) 1 sample_commit 200
      300
      (written default_state sample_commit sample_frame 0 committed_state [] 0 committed_state
        encoded_frame commit_outcome (empty committed_state))
      encoded_frame (omega arith) (omega (arith, log_parts.1)) cut_partial
      (omega (
        arith,
        log_parts.1,
        length-cut_frame 200 300 sample_frame (omega (arith, log_parts.1)),
        length-append {0} (sample_frame ++ []) (cut_frame 200 300 sample_frame),
        ap length (append-nil sample_frame),
      ))
