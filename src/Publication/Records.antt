-- ===== src/Publication/Records.antt =====
-- The records of publication_v2.rs. A `String` is the list of its UTF-8 bytes.
use tulya_checkpoint_store.Prelude.{
  ℕ, ◌≡◌, List, [], ◌∷◌, ◌++◌, String, Option, none, some, Bool, true, Result, ok, ◌>>=◌,
  checked_add, u64_max, ℕ_discrete,
}
use tulya_checkpoint_store.Format.Bytes.{to_le_bytes}
use tulya_checkpoint_store.Format.Records.{Sha256, FormatError, RootRecord}

-- `std::str::from_utf8(bytes).is_ok()`
pub record Utf8 : Type 0 where
  pub is_utf8 : List ℕ → Bool
  pub is_utf8-nil : is_utf8 [] ≡ true

-- `V2PublicationError`
pub data PublicationError : Type 0 where
  format_error : FormatError → PublicationError
  record_length : String → (expected actual : ℕ) → PublicationError
  invalid overflow : String → PublicationError

-- `V2StateMetadata`
pub record StateMetadata : Type 0 where
  pub logical_len : ℕ
  pub commitment : List ℕ

-- `V2VersionRecord`
pub record VersionRecord : Type 0 where
  pub version_id : ℕ
  pub parent_version : Option ℕ
  pub root : RootRecord

-- `V2CheckpointRecord`
pub record CheckpointRecord : Type 0 where
  pub checkpoint_no : ℕ
  pub thread_id : List ℕ
  pub checkpoint_id : List ℕ
  pub parent_checkpoint_id : Option (List ℕ)
  pub identity_version : ℕ
  pub messages_version : Option ℕ
  pub result_version : Option ℕ
  pub state : StateMetadata

-- The derived `PartialEq`.
unfoldable pub StateMetadata-discrete : Discrete StateMetadata
StateMetadata-discrete = hlevel ℕ_discrete

unfoldable pub VersionRecord-discrete : Discrete VersionRecord
VersionRecord-discrete = hlevel ℕ_discrete

unfoldable pub CheckpointRecord-discrete : Discrete CheckpointRecord
CheckpointRecord-discrete = hlevel ℕ_discrete

-- V2_NONE_VERSION, V2_CHECKPOINT_SCHEMA, V2_MAX_IDENTIFIER_BYTES, V2_CANONICAL_BASE_BYTES,
-- V2_CANONICAL_RESULT_PREFIX_BYTES, V2_MIN_CANONICAL_STATE_BYTES
abbrev pub none_version : ℕ
none_version = 0xffff_ffff

abbrev pub checkpoint_schema : ℕ
checkpoint_schema = 1

abbrev pub max_identifier_bytes : ℕ
max_identifier_bytes = 4096

abbrev pub canonical_base_bytes : ℕ
canonical_base_bytes = 27

abbrev pub canonical_result_prefix_bytes : ℕ
canonical_result_prefix_bytes = 10

abbrev pub min_canonical_state_bytes : ℕ
min_canonical_state_bytes = 28

-- b"tulya-checkpoint-v2/state\0"
abbrev pub state_domain : List ℕ
state_domain =
    b't' ∷ b'u' ∷ b'l' ∷ b'y' ∷ b'a' ∷ b'-' ∷ b'c' ∷ b'h' ∷ b'e' ∷ b'c' ∷ b'k' ∷ b'p' ∷ b'o' ∷ b'i'
    ∷ b'n' ∷ b't' ∷ b'-' ∷ b'v' ∷ b'2' ∷ b'/' ∷ b's' ∷ b't' ∷ b'a' ∷ b't' ∷ b'e' ∷ 0 ∷ []

-- `update_root_commitment` and `update_optional_root_commitment`: the bytes that they hash.
unfoldable pub root_bytes : RootRecord → List ℕ
root_bytes root = to_le_bytes 8 root.logical_len ++ root.commitment

unfoldable pub optional_root_bytes : Option RootRecord → List ℕ
optional_root_bytes (some root) = 1 ∷ root_bytes root
optional_root_bytes none = 0 ∷ []

-- The length of the messages, and that of a result behind its prefix, added to a length.
unfoldable pub add_messages_len : ℕ → Option RootRecord → Result PublicationError ℕ
add_messages_len len none = ok len
add_messages_len len (some messages) =
    checked_add u64_max len messages.logical_len
      (overflow "v2 checkpoint canonical length exceeds u64")

unfoldable pub add_result_len : ℕ → Option RootRecord → Result PublicationError ℕ
add_result_len len none = ok len
add_result_len len (some result) = do
  value ←
      checked_add u64_max len canonical_result_prefix_bytes
        (overflow "v2 checkpoint canonical length exceeds u64")
  checked_add u64_max value result.logical_len
      (overflow "v2 checkpoint canonical length exceeds u64")

module _ ⦃sha : Sha256⦄ where
  -- `checkpoint_state_metadata`
  unfoldable pub checkpoint_state_metadata :
      RootRecord → Option RootRecord → Option RootRecord → Result PublicationError StateMetadata
  checkpoint_state_metadata identity messages result = do
    with_identity ←
        checked_add u64_max canonical_base_bytes identity.logical_len
          (overflow "v2 checkpoint canonical length exceeds u64")
    with_messages ← add_messages_len with_identity messages
    logical_len ← add_result_len with_messages result
    ok (record {
      logical_len = logical_len;
      commitment = sha.digest (
          state_domain
          ++ (to_le_bytes 4 checkpoint_schema
              ++ (to_le_bytes 8 logical_len
                  ++ (root_bytes identity
                      ++ (optional_root_bytes messages ++ optional_root_bytes result)))));
    })
