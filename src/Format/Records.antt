-- ===== src/Format/Records.antt =====
-- The records of format_v2.rs. A commitment is its list of 32 bytes; a `u64` or `u16` is a number,
-- whose range the constructors check. SHA-256 is the `sha2` crate's, and a parameter here.
use tulya_checkpoint_store.Prelude.{ℕ, ◌≡◌, List, String, length, ℕ_discrete}

-- `sha2::Sha256`: one digest of all the bytes that the hasher was updated with.
pub record Sha256 : Type 0 where
  pub digest : List ℕ → List ℕ
  pub length-digest : (bytes : List ℕ) → length (digest bytes) ≡ 32

-- `V2FormatError`
pub data FormatError : Type 0 where
  record_length : String → ℕ → ℕ → FormatError
  invalid : String → FormatError
  overflow : String → FormatError

-- `V2NodeBody`
pub data NodeBody : Type 0 where
  leaf : (payload_offset payload_len : ℕ) → NodeBody
  branch : (left_node_id right_node_id left_len : ℕ) → NodeBody

-- `V2NodeRecord`
pub record NodeRecord : Type 0 where
  pub height : ℕ
  pub logical_len : ℕ
  pub commitment : List ℕ
  pub body : NodeBody

-- `V2RootRecord`
pub record RootRecord : Type 0 where
  pub node_id : ℕ
  pub logical_len : ℕ
  pub height : ℕ
  pub commitment : List ℕ

-- `V2_NODE_RECORD_SIZE`, `V2_ROOT_RECORD_SIZE`, `V2_NONE_NODE`, `MAX_LEAF_PAYLOAD_BYTES`
abbrev pub node_record_size : ℕ
node_record_size = 72

abbrev pub root_record_size : ℕ
root_record_size = 56

abbrev pub none_node : ℕ
none_node = 0xffff_ffff_ffff_ffff

abbrev pub max_leaf_payload_bytes : ℕ
max_leaf_payload_bytes = 16384

-- The derived `PartialEq`.
unfoldable pub NodeRecord-discrete : Discrete NodeRecord
NodeRecord-discrete = hlevel ℕ_discrete

unfoldable pub RootRecord-discrete : Discrete RootRecord
RootRecord-discrete = hlevel ℕ_discrete
