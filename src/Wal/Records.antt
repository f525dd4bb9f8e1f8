-- ===== src/Wal/Records.antt =====
-- The errors, geometries and transactions of transaction_v2.rs.
use tulya_checkpoint_store.Prelude.{ℕ, List, [], ◌∷◌, String, ℕ_discrete}
use tulya_checkpoint_store.Format.Records.{FormatError, NodeRecord}
use tulya_checkpoint_store.Publication.Records.{PublicationError, VersionRecord, CheckpointRecord}

-- `V2WalError`
pub data WalError : Type 0 where
  format_error : FormatError → WalError
  publication_error : PublicationError → WalError
  invalid overflow : String → WalError

-- `V2WalGeometry`: how much of each table is committed.
pub record WalGeometry : Type 0 where
  pub payload_len : ℕ
  pub node_count : ℕ
  pub version_count : ℕ
  pub checkpoint_count : ℕ

unfoldable pub WalGeometry-discrete : Discrete WalGeometry
WalGeometry-discrete = hlevel ℕ_discrete

-- `V2WalTransaction`
pub record WalTransaction : Type 0 where
  pub payload : List ℕ
  pub nodes : List NodeRecord
  pub versions : List VersionRecord
  pub checkpoint : CheckpointRecord

-- `V2DecodedWalTransaction`
pub record DecodedWalTransaction : Type 0 where
  pub transaction : WalTransaction
  pub next_geometry : WalGeometry
  pub digest : List ℕ

-- b"T2W2" and b"tulya-checkpoint-v2/wal-transaction\0"
abbrev pub wal_magic : List ℕ
wal_magic = b'T' ∷ b'2' ∷ b'W' ∷ b'2' ∷ []

abbrev pub wal_domain : List ℕ
wal_domain =
    b't' ∷ b'u' ∷ b'l' ∷ b'y' ∷ b'a' ∷ b'-' ∷ b'c' ∷ b'h' ∷ b'e' ∷ b'c' ∷ b'k' ∷ b'p' ∷ b'o' ∷ b'i'
    ∷ b'n' ∷ b't' ∷ b'-' ∷ b'v' ∷ b'2' ∷ b'/' ∷ b'w' ∷ b'a' ∷ b'l' ∷ b'-' ∷ b't' ∷ b'r' ∷ b'a'
    ∷ b'n' ∷ b's' ∷ b'a' ∷ b'c' ∷ b't' ∷ b'i' ∷ b'o' ∷ b'n' ∷ 0 ∷ []

-- V2_WAL_SCHEMA, V2_WAL_HEADER_PREFIX_SIZE, V2_WAL_HEADER_SIZE, V2_WAL_DIGEST_OFFSET,
-- V2_WAL_NODE_RECORD_SIZE, V2_WAL_VERSION_RECORD_SIZE
abbrev pub wal_schema : ℕ
wal_schema = 1

abbrev pub header_prefix_size : ℕ
header_prefix_size = 88

abbrev pub header_size : ℕ
header_size = 120

abbrev pub digest_offset : ℕ
digest_offset = 88

abbrev pub wal_node_record_size : ℕ
wal_node_record_size = 72

abbrev pub wal_version_record_size : ℕ
wal_version_record_size = 72
