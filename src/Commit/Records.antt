-- ===== src/Commit/Records.antt =====
-- The errors, records and digests of commit_v2.rs.
use tulya_checkpoint_store.Prelude.{
  ℕ, List, [], ◌∷◌, ◌++◌, String, Option, ◌||◌, ltb, is_empty, length, Result, ok, ◌>>=◌, ◌>>◌,
  reject, map_err, try_from, u32_max,
}
use tulya_checkpoint_store.Format.Bytes.{to_le_bytes}
use tulya_checkpoint_store.Format.Reads.{read_le}
use tulya_checkpoint_store.Format.Records.{Sha256}
use tulya_checkpoint_store.Publication.Records.{PublicationError, CheckpointRecord}
use tulya_checkpoint_store.Publication.Checks.{is_some_and}
use tulya_checkpoint_store.Publication.Checkpoint.{parent_or_empty, validate_checkpoint_record}
use tulya_checkpoint_store.Wal.Records.{WalError, WalGeometry, DecodedWalTransaction}

-- `V2CommitError`
pub data CommitError : Type 0 where
  publication_error : PublicationError → CommitError
  wal_error : WalError → CommitError
  invalid overflow : String → CommitError

-- `V2DecodedCommit`
pub record DecodedCommit : Type 0 where
  pub encoded_base : WalGeometry
  pub wal : DecodedWalTransaction
  pub request_id : Option (List ℕ)
  pub operation_digest : List ℕ
  pub commit_digest : List ℕ

-- b"T2C2", b"tulya-checkpoint-v2/commit\0" and b"tulya-checkpoint-v2/checkpoint-operation\0"
abbrev pub commit_magic : List ℕ
commit_magic = b'T' ∷ b'2' ∷ b'C' ∷ b'2' ∷ []

abbrev pub commit_domain : List ℕ
commit_domain =
    b't' ∷ b'u' ∷ b'l' ∷ b'y' ∷ b'a' ∷ b'-' ∷ b'c' ∷ b'h' ∷ b'e' ∷ b'c' ∷ b'k' ∷ b'p' ∷ b'o' ∷ b'i'
    ∷ b'n' ∷ b't' ∷ b'-' ∷ b'v' ∷ b'2' ∷ b'/' ∷ b'c' ∷ b'o' ∷ b'm' ∷ b'm' ∷ b'i' ∷ b't' ∷ 0 ∷ []

abbrev pub operation_domain : List ℕ
operation_domain =
    b't' ∷ b'u' ∷ b'l' ∷ b'y' ∷ b'a' ∷ b'-' ∷ b'c' ∷ b'h' ∷ b'e' ∷ b'c' ∷ b'k' ∷ b'p' ∷ b'o' ∷ b'i'
    ∷ b'n' ∷ b't' ∷ b'-' ∷ b'v' ∷ b'2' ∷ b'/' ∷ b'c' ∷ b'h' ∷ b'e' ∷ b'c' ∷ b'k' ∷ b'p' ∷ b'o'
    ∷ b'i' ∷ b'n' ∷ b't' ∷ b'-' ∷ b'o' ∷ b'p' ∷ b'e' ∷ b'r' ∷ b'a' ∷ b't' ∷ b'i' ∷ b'o' ∷ b'n' ∷ 0
    ∷ []

-- V2_COMMIT_SCHEMA, V2_COMMIT_PREFIX_SIZE, V2_COMMIT_HEADER_SIZE, V2_COMMIT_DIGEST_OFFSET,
-- V2_MAX_REQUEST_ID_BYTES
abbrev pub commit_schema : ℕ
commit_schema = 1

abbrev pub commit_prefix_size : ℕ
commit_prefix_size = 56

abbrev pub commit_header_size : ℕ
commit_header_size = 88

abbrev pub max_request_id_bytes : ℕ
max_request_id_bytes = 4096

-- `validate_request_id`
unfoldable pub validate_request_id : Option (List ℕ) → Result CommitError (Unit {0})
validate_request_id request_id =
    reject
      (is_some_and request_id
        (λ request. is_empty request || ltb max_request_id_bytes (length request)))
      (invalid "v2 commit request id is empty or exceeds the byte limit")

-- `update_len_prefixed`: the bytes that it hashes.
unfoldable pub len_prefixed : List ℕ → Result CommitError (List ℕ)
len_prefixed bytes = do
  len ← try_from u32_max (length bytes) (overflow "v2 operation field length exceeds u32")
  ok (to_le_bytes 4 len ++ bytes)

module _ ⦃sha : Sha256⦄ where
  -- `checkpoint_operation_digest`
  unfoldable pub checkpoint_operation_digest : CheckpointRecord → Result CommitError (List ℕ)
  checkpoint_operation_digest checkpoint = do
    map_err publication_error (validate_checkpoint_record checkpoint)
    thread ← len_prefixed checkpoint.thread_id
    id ← len_prefixed checkpoint.checkpoint_id
    parent ← len_prefixed (parent_or_empty checkpoint.parent_checkpoint_id)
    ok (
        sha.digest (
          operation_domain
          ++ (to_le_bytes 4 commit_schema
              ++ (to_le_bytes 4 checkpoint.checkpoint_no
                  ++ (thread
                      ++ (id
                          ++ (parent
                              ++ (to_le_bytes 8 checkpoint.state.logical_len
                                  ++ checkpoint.state.commitment))))))))

  -- `commit_digest`
  unfoldable pub digest_of_commit : List ℕ → List ℕ → List ℕ
  digest_of_commit prefix body = sha.digest (commit_domain ++ (prefix ++ body))

-- `read_u32` and `read_u64`
unfoldable pub read_u32 : List ℕ → ℕ → String → Result CommitError ℕ
read_u32 bytes offset message =
    read_le 4 bytes offset (overflow "v2 commit u32 range exceeds usize") (invalid message)

unfoldable pub read_u64 : List ℕ → ℕ → String → Result CommitError ℕ
read_u64 bytes offset message =
    read_le 8 bytes offset (overflow "v2 commit u64 range exceeds usize") (invalid message)
