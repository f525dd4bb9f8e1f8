-- ===== src/HotWal/Authority.antt =====
-- `probe_hot_wal_prefix` and `recovery_dispatch` of format_authority.rs: which recovery reads a log.
use tulya_checkpoint_store.Prelude.{
  ℕ, Bool, true, ◌&&◌, ◌||◌, String, List, [], ◌∷◌, length, take, is_empty, ltb, ◌==◌,
  if◌then◌else◌, Result, ok, err,
}
use tulya_checkpoint_store.Format.Codec.{same_bytes}

-- WAL_V1_MAGIC, WAL_V2_COMMIT_MAGIC, WAL_V2_STRUCTURAL_MAGIC
abbrev pub wal_v1_magic : List ℕ
wal_v1_magic = b'T' ∷ b'2' ∷ b'W' ∷ b'1' ∷ []

abbrev pub wal_v2_commit_magic : List ℕ
wal_v2_commit_magic = b'T' ∷ b'2' ∷ b'C' ∷ b'2' ∷ []

abbrev pub wal_v2_structural_magic : List ℕ
wal_v2_structural_magic = b'T' ∷ b'2' ∷ b'W' ∷ b'2' ∷ []

-- `PublicStoreFormat`
pub data PublicStoreFormat : Type 0 where
  v1 v2 : PublicStoreFormat

-- `HotWalAuthority`
pub data HotWalAuthority : Type 0 where
  empty_wal v1_transaction v2_commit : HotWalAuthority

-- `RecoveryDispatch`
pub data RecoveryDispatch : Type 0 where
  v1_transaction_wal v2_commit_wal : RecoveryDispatch

-- `FormatAuthorityError`
pub data FormatAuthorityError : Type 0 where
  invalid_authority : String → FormatAuthorityError
  unsupported_manifest_version : ℕ → FormatAuthorityError
  manifest_wal_mismatch : PublicStoreFormat → HotWalAuthority → FormatAuthorityError

-- `bytes.iter().all(|byte| *byte == 0)`
abbrev pub all_zero : List ℕ → Bool
all_zero [] = true
all_zero (b ∷ bytes) = (b == 0) && all_zero bytes

-- `match magic`
unfoldable pub classify_magic : List ℕ → Result FormatAuthorityError HotWalAuthority
classify_magic magic =
    if same_bytes magic wal_v1_magic
    then ok v1_transaction
    else if same_bytes magic wal_v2_commit_magic
    then ok v2_commit
    else if same_bytes magic wal_v2_structural_magic
    then err (invalid_authority "bare T2W2 structural transaction cannot be authoritative")
    else err (invalid_authority "checkpoint-store WAL magic is unsupported")

-- `probe_hot_wal_prefix`; after the test of the length the prefix has its four bytes.
unfoldable pub probe_hot_wal_prefix : List ℕ → Result FormatAuthorityError HotWalAuthority
probe_hot_wal_prefix bytes =
    if is_empty bytes || all_zero (take 4 bytes)
    then ok empty_wal
    else if ltb (length bytes) 4
    then err (invalid_authority "checkpoint-store WAL prefix is truncated")
    else classify_magic (take 4 bytes)

-- `recovery_dispatch`
unfoldable pub recovery_dispatch :
    PublicStoreFormat → HotWalAuthority → Result FormatAuthorityError RecoveryDispatch
recovery_dispatch v1 empty_wal = ok v1_transaction_wal
recovery_dispatch v1 v1_transaction = ok v1_transaction_wal
recovery_dispatch v1 v2_commit = err (manifest_wal_mismatch v1 v2_commit)
recovery_dispatch v2 empty_wal = ok v2_commit_wal
recovery_dispatch v2 v2_commit = ok v2_commit_wal
recovery_dispatch v2 v1_transaction = err (manifest_wal_mismatch v2 v1_transaction)
