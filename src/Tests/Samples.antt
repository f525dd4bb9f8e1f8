-- ===== src/Tests/Samples.antt =====
-- A first transaction: three bytes of payload, one leaf, one version, one checkpoint.
use tulya_checkpoint_store.Prelude.{ℕ, List, [], ◌∷◌, none, some, false}
use tulya_checkpoint_store.Format.Records.{NodeBody, NodeRecord, RootRecord}
use tulya_checkpoint_store.Publication.Records.{
  StateMetadata, VersionRecord, CheckpointRecord, checkpoint_state_metadata,
}
use tulya_checkpoint_store.Wal.Records.{WalGeometry, WalTransaction}
use tulya_checkpoint_store.Commit.Records.{DecodedCommit}
use tulya_checkpoint_store.Commit.Codec.{encode_commit, decode_commit}
use tulya_checkpoint_store.HotWal.FrameEncode.{encode_hot_frame}
use tulya_checkpoint_store.Apply.State.{CommittedState, retired_request, default_state}
use tulya_checkpoint_store.Apply.Commits.{apply_commit}
use tulya_checkpoint_store.Apply.Requests.{retire_request}
use tulya_checkpoint_store.Apply.Delete.Ledgers.{
  PreparedSubtreeDelete, prepare_delete_checkpoint_subtree,
  apply_prepared_delete_checkpoint_subtree,
}
use tulya_checkpoint_store.Format.Build.{leaf_commitment}
use tulya_checkpoint_store.Tests.Fixtures.{checksum_sha, ascii_text, value_or}

abbrev pub sample_payload : List ℕ
sample_payload = b'a' ∷ b'b' ∷ b'c' ∷ []

abbrev pub sample_node : NodeRecord
sample_node = record {
  height = 1;
  logical_len = 3;
  commitment = leaf_commitment 3 sample_payload;
  body = NodeBody.leaf 0 3;
}

abbrev pub sample_root : RootRecord
sample_root = record {
  node_id = 0;
  logical_len = 3;
  height = 1;
  commitment = leaf_commitment 3 sample_payload;
}

abbrev pub sample_version : VersionRecord
sample_version = record { version_id = 0; parent_version = none; root = sample_root }

abbrev pub sample_state : StateMetadata
sample_state =
    value_or (record { logical_len = 0; commitment = [] })
      (checkpoint_state_metadata sample_root none none)

abbrev pub sample_checkpoint : CheckpointRecord
sample_checkpoint = record {
  checkpoint_no = 1;
  thread_id = b't' ∷ [];
  checkpoint_id = b'c' ∷ b'1' ∷ [];
  parent_checkpoint_id = none;
  identity_version = 0;
  messages_version = none;
  result_version = none;
  state = sample_state;
}

abbrev pub sample_base : WalGeometry
sample_base = record { payload_len = 0; node_count = 0; version_count = 0; checkpoint_count = 0 }

abbrev pub sample_transaction : WalTransaction
sample_transaction = record {
  payload = sample_payload;
  nodes = sample_node ∷ [];
  versions = sample_version ∷ [];
  checkpoint = sample_checkpoint;
}

abbrev pub sample_request : List ℕ
sample_request = b'r' ∷ []

abbrev pub sample_commit : List ℕ
sample_commit = value_or [] (encode_commit sample_base sample_transaction (some sample_request))

abbrev pub sample_frame : List ℕ
sample_frame = value_or [] (encode_hot_frame sample_commit)

abbrev pub committed_state : CommittedState
committed_state =
    (value_or (retired_request, default_state) (apply_commit default_state sample_commit)).1

abbrev pub retired_state : CommittedState
retired_state = value_or default_state (retire_request committed_state sample_request)

abbrev pub sample_decoded : DecodedCommit
sample_decoded =
    value_or
      (record {
        encoded_base = sample_base;
        wal = record { transaction = sample_transaction; next_geometry = sample_base; digest = [] };
        request_id = none;
        operation_digest = [];
        commit_digest = [];
      })
      (decode_commit sample_commit)

-- The magic and the length of a commit, with the zeros of the reserve behind them.
abbrev pub sample_torn : List ℕ
sample_torn = b'T' ∷ b'2' ∷ b'C' ∷ b'2' ∷ 200 ∷ 0 ∷ 0 ∷ 0 ∷ 0 ∷ 0 ∷ 0 ∷ []

-- A second transaction of one checkpoint below the first, which is then deleted.
abbrev pub child_checkpoint : CheckpointRecord
child_checkpoint = record {
  checkpoint_no = 2;
  thread_id = b't' ∷ [];
  checkpoint_id = b'c' ∷ b'2' ∷ [];
  parent_checkpoint_id = some (b'c' ∷ b'1' ∷ []);
  identity_version = 0;
  messages_version = none;
  result_version = none;
  state = sample_state;
}

abbrev pub child_base : WalGeometry
child_base = record { payload_len = 3; node_count = 1; version_count = 1; checkpoint_count = 1 }

abbrev pub child_transaction : WalTransaction
child_transaction = record {
  payload = [];
  nodes = [];
  versions = [];
  checkpoint = child_checkpoint;
}

abbrev pub child_request : List ℕ
child_request = b's' ∷ []

abbrev pub child_commit : List ℕ
child_commit = value_or [] (encode_commit child_base child_transaction (some child_request))

abbrev pub child_state : CommittedState
child_state =
    (value_or (retired_request, default_state) (apply_commit committed_state child_commit)).1

abbrev pub child_delete : PreparedSubtreeDelete
child_delete =
    value_or
      (record {
        checkpoints = [];
        checkpoint_ordinals = [];
        request_records = [];
        retired_requests = [];
        deleted_checkpoints = [];
        clear_sequence_geometry = false;
        deleted_checkpoint_count = 0;
      })
      (prepare_delete_checkpoint_subtree child_state (b't' ∷ []) (b'c' ∷ b'2' ∷ []))

abbrev pub deleted_state : CommittedState
deleted_state = apply_prepared_delete_checkpoint_subtree child_state child_delete
