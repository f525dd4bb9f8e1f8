-- ===== src/Publication/Version.antt =====
-- `encode_v2_version` and `decode_v2_version` of publication_v2.rs.
use tulya_checkpoint_store.Prelude.{
  ℕ, List, [], ◌∷◌, not, ◌==◌, take, replicate, Result, ok, ◌>>=◌, ◌>>◌, reject, map_err,
}
use tulya_checkpoint_store.Format.Bytes.{to_le_bytes}
use tulya_checkpoint_store.Format.Reads.{get_or_err}
use tulya_checkpoint_store.Format.Codec.{same_bytes, copy_at, encode_root, decode_root}
use tulya_checkpoint_store.Publication.Records.{
  PublicationError, format_error, invalid, VersionRecord,
}
use tulya_checkpoint_store.Publication.Checks.{
  validate_parent_version, decode_optional_version, encode_optional_version, require_record_len,
  read_u32,
}

-- b"T2V2", and V2_VERSION_RECORD_SIZE
abbrev pub version_magic : List ℕ
version_magic = b'T' ∷ b'2' ∷ b'V' ∷ b'2' ∷ []

abbrev pub version_record_size : ℕ
version_record_size = 72

-- The writes into the zeroed record.
unfoldable pub version_bytes : VersionRecord → List ℕ
version_bytes version = copy_at 16 (encode_root version.root) (
    copy_at 12 (to_le_bytes 4 0) (
      copy_at 8 (to_le_bytes 4 (encode_optional_version version.parent_version)) (
        copy_at 4 (to_le_bytes 4 version.version_id)
          (copy_at 0 version_magic (replicate version_record_size 0)))))

-- `encode_v2_version`
unfoldable pub encode_version : VersionRecord → Result PublicationError (List ℕ)
encode_version version = do
  validate_parent_version version.version_id version.parent_version
  ok (version_bytes version)

-- `decode_v2_version`; a record of 72 bytes has its first four.
unfoldable pub decode_version : List ℕ → ℕ → Result PublicationError VersionRecord
decode_version bytes expected_version_id = do
  require_record_len "v2 version" bytes version_record_size
  reject (not (same_bytes (take 4 bytes) version_magic)) (invalid "v2 version magic mismatch")
  version_id ← read_u32 bytes 4 "v2 version id is truncated"
  reject (not (version_id == expected_version_id)) (invalid "v2 version id is not sequential")
  raw_parent ← read_u32 bytes 8 "v2 version parent is truncated"
  let parent_version = decode_optional_version raw_parent
  validate_parent_version version_id parent_version
  flags ← read_u32 bytes 12 "v2 version flags are truncated"
  reject (not (flags == 0)) (invalid "v2 version flags must be zero")
  root_part ← get_or_err bytes 16 72 (invalid "v2 version root is truncated")
  root ← map_err format_error (decode_root root_part)
  ok (record { version_id = version_id; parent_version = parent_version; root = root })
