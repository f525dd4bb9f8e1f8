-- ===== src/Publication/Checks.antt =====
-- The checks of publication_v2.rs on identifiers and version references, and its reads.
use tulya_checkpoint_store.Prelude.{
  ℕ, List, String, Option, none, some, Bool, false, not, ◌||◌, ltb, leb, ◌==◌, is_empty, length,
  if◌then◌else◌, Result, ok, ◌>>◌, reject,
}
use tulya_checkpoint_store.Format.Reads.{read_le}
use tulya_checkpoint_store.Publication.Records.{
  Utf8, PublicationError, record_length, invalid, overflow, none_version, max_identifier_bytes,
}

-- `is_some_and`
abbrev pub is_some_and {ℓ} : {A : Type ℓ} → Option A → (A → Bool) → Bool
is_some_and none f = false
is_some_and (some a) f = f a

-- `validate_parent_version`
unfoldable pub validate_parent_version : ℕ → Option ℕ → Result PublicationError (Unit {0})
validate_parent_version version_id parent_version = do
  reject (version_id == none_version) (invalid "v2 version id uses the reserved none sentinel")
  reject (is_some_and parent_version (λ parent. parent == none_version))
      (invalid "v2 version parent uses the reserved none sentinel")
  reject (is_some_and parent_version (λ parent. leb version_id parent))
      (invalid "v2 version parent is not topologically prior")

-- `validate_identifier`
unfoldable pub validate_identifier : List ℕ → String → Result PublicationError (Unit {0})
validate_identifier value message =
    reject (is_empty value || ltb max_identifier_bytes (length value)) (invalid message)

-- `validate_encodable_version_reference`
unfoldable pub validate_encodable_version_reference : ℕ → Result PublicationError (Unit {0})
validate_encodable_version_reference version =
    reject (version == none_version)
      (invalid "v2 checkpoint version reference uses the reserved none sentinel")

-- `validate_version_reference`
unfoldable pub validate_version_reference : ℕ → ℕ → Result PublicationError (Unit {0})
validate_version_reference version version_count = do
  validate_encodable_version_reference version
  reject (leb version_count version)
      (invalid "v2 checkpoint version reference is outside the committed watermark")

-- `if let Some(value) = … { check(value)?; }`
abbrev pub check_some {ℓ} :
    {A : Type ℓ}
    → Option A
    → (A → Result PublicationError (Unit {0}))
    → Result PublicationError (Unit {0})
check_some none check = ok tt
check_some (some a) check = check a

-- `decode_optional_version`
unfoldable pub decode_optional_version : ℕ → Option ℕ
decode_optional_version raw = if raw == none_version then none else some raw

-- `unwrap_or(V2_NONE_VERSION)`
unfoldable pub encode_optional_version : Option ℕ → ℕ
encode_optional_version none = none_version
encode_optional_version (some version) = version

-- `decode_identifier`
unfoldable pub decode_identifier :
    ⦃text : Utf8⦄ → List ℕ → String → Result PublicationError (List ℕ)
decode_identifier ⦃text⦄ bytes message = do
  reject (not (text.is_utf8 bytes)) (invalid message)
  ok bytes

-- `require_record_len`
unfoldable pub require_record_len : String → List ℕ → ℕ → Result PublicationError (Unit {0})
require_record_len name bytes expected =
    reject (not (length bytes == expected)) (record_length name expected (length bytes))

-- `read_u32` and `read_u64`
unfoldable pub read_u32 : List ℕ → ℕ → String → Result PublicationError ℕ
read_u32 bytes offset message =
    read_le 4 bytes offset (overflow "v2 publication u32 range exceeds usize") (invalid message)

unfoldable pub read_u64 : List ℕ → ℕ → String → Result PublicationError ℕ
read_u64 bytes offset message =
    read_le 8 bytes offset (overflow "v2 publication u64 range exceeds usize") (invalid message)
