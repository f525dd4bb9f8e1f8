-- ===== src/Format/Codec.antt =====
-- `encode_v2_node`, `decode_v2_node`, `encode_v2_root` and `decode_v2_root` of format_v2.rs.
use tulya_checkpoint_store.Prelude.{
  ℕ, ◌+◌, List, [], ◌∷◌, ◌++◌, String, Bool, true, false, ◌&&◌, ◌||◌, not, none, some, ltb, leb,
  ◌==◌, length, take, drop, replicate, get_elem?, slice, if◌then◌else◌, Result, ok, err, ◌>>=◌,
  ◌>>◌, reject, checked_add, u64_max,
}
use tulya_checkpoint_store.Format.Bytes.{to_le_bytes, from_le_bytes}
use tulya_checkpoint_store.Format.Records.{
  FormatError, record_length, invalid, overflow, NodeBody, NodeRecord, RootRecord, none_node,
  node_record_size, root_record_size, max_leaf_payload_bytes,
}
use tulya_checkpoint_store.Format.Build.{validate_child_root}

-- b"T2N2" and b"T2R2"
abbrev pub node_magic : List ℕ
node_magic = b'T' ∷ b'2' ∷ b'N' ∷ b'2' ∷ []

abbrev pub root_magic : List ℕ
root_magic = b'T' ∷ b'2' ∷ b'R' ∷ b'2' ∷ []

-- `V2_NODE_KIND_LEAF`, `V2_NODE_KIND_BRANCH`, `V2_ROOT_REPRESENTATION_BALANCED`
abbrev pub leaf_kind : ℕ
leaf_kind = 1

abbrev pub branch_kind : ℕ
branch_kind = 2

abbrev pub balanced_representation : ℕ
balanced_representation = 1

-- Equality of arrays of bytes.
abbrev pub same_bytes : List ℕ → List ℕ → Bool
same_bytes [] [] = true
same_bytes [] (y ∷ ys) = false
same_bytes (x ∷ xs) [] = false
same_bytes (x ∷ xs) (y ∷ ys) = (x == y) && same_bytes xs ys

-- `output[start..start + bytes.len()].copy_from_slice(bytes)`
abbrev pub copy_at : ℕ → List ℕ → List ℕ → List ℕ
copy_at start bytes output = take start output ++ (bytes ++ drop (start + length bytes) output)

-- The fields that both kinds of node have.
unfoldable pub encode_fields : ℕ → ℕ → ℕ → ℕ → ℕ → List ℕ → List ℕ
encode_fields kind height logical_len field_a field_b output = copy_at 24 (to_le_bytes 8 field_b) (
    copy_at 16 (to_le_bytes 8 field_a) (
      copy_at 8 (to_le_bytes 8 logical_len)
        (copy_at 6 (to_le_bytes 2 height) (copy_at 4 (kind ∷ []) output))))

-- The match on `record.body`.
unfoldable pub encode_body : NodeBody → ℕ → ℕ → List ℕ → List ℕ
encode_body (NodeBody.leaf payload_offset payload_len) height logical_len output =
    encode_fields leaf_kind height logical_len payload_offset payload_len output
encode_body (NodeBody.branch left_node_id right_node_id left_len) height logical_len output =
    copy_at 32 (to_le_bytes 8 left_len)
      (encode_fields branch_kind height logical_len left_node_id right_node_id output)

-- `encode_v2_node`
unfoldable pub encode_node : NodeRecord → List ℕ
encode_node record_ = copy_at 40 record_.commitment (
    encode_body record_.body record_.height record_.logical_len
      (copy_at 0 node_magic (replicate node_record_size 0)))

-- `encode_v2_root`
unfoldable pub encode_root : RootRecord → List ℕ
encode_root root = copy_at 24 root.commitment (
    copy_at 16 (to_le_bytes 8 root.logical_len) (
      copy_at 8 (to_le_bytes 8 root.node_id) (
        copy_at 6 (to_le_bytes 2 root.height) (
          copy_at 4 (balanced_representation ∷ [])
            (copy_at 0 root_magic (replicate root_record_size 0))))))

-- `require_record_len`
unfoldable pub require_record_len : String → List ℕ → ℕ → Result FormatError (Unit {0})
require_record_len name bytes expected =
    reject (not (length bytes == expected)) (record_length name expected (length bytes))

-- `read_byte`
unfoldable pub read_byte : List ℕ → ℕ → String → Result FormatError ℕ
read_byte bytes offset message = elim (get_elem? bytes offset) [
  | none ↦ err (invalid message)
  | some b ↦ ok b
]

-- `read_array::<N>`; a slice of `N` bytes converts to an array of them.
unfoldable pub read_array : ℕ → List ℕ → ℕ → String → Result FormatError (List ℕ)
read_array n bytes offset message = do
  end ← checked_add u64_max offset n (overflow "v2 codec range exceeds usize")
  elim (slice bytes offset end) [ none ↦ err (invalid message) | some found ↦ ok found ]

-- The arm of `V2_NODE_KIND_LEAF`.
unfoldable pub decode_leaf : ℕ → ℕ → List ℕ → ℕ → ℕ → ℕ → Result FormatError NodeRecord
decode_leaf height logical_len commitment field_a field_b field_c = do
  reject (not (height == 1)) (invalid "v2 leaf height must be one")
  reject (logical_len == 0) (invalid "v2 leaf logical length must be positive")
  reject (not (field_b == logical_len))
      (invalid "v2 leaf payload length disagrees with logical length")
  reject (ltb max_leaf_payload_bytes logical_len)
      (invalid "v2 leaf payload exceeds the staging bound")
  reject (not (field_c == 0)) (invalid "v2 leaf reserved field must be zero")
  range_end ← checked_add u64_max field_a field_b (overflow "v2 leaf payload range exceeds u64")
  ok (record {
    height = height;
    logical_len = logical_len;
    commitment = commitment;
    body = NodeBody.leaf field_a field_b;
  })

-- The arm of `V2_NODE_KIND_BRANCH`.
unfoldable pub decode_branch : ℕ → ℕ → List ℕ → ℕ → ℕ → ℕ → Result FormatError NodeRecord
decode_branch height logical_len commitment field_a field_b field_c = do
  reject (ltb height 2) (invalid "v2 branch height must be at least two")
  reject ((field_a == none_node) || (field_b == none_node))
      (invalid "v2 branch uses the reserved none-node identifier")
  reject ((field_c == 0) || leb logical_len field_c)
      (invalid "v2 branch left length must split two non-empty children")
  ok (record {
    height = height;
    logical_len = logical_len;
    commitment = commitment;
    body = NodeBody.branch field_a field_b field_c;
  })

-- `match kind`
unfoldable pub decode_kind : ℕ → ℕ → ℕ → List ℕ → ℕ → ℕ → ℕ → Result FormatError NodeRecord
decode_kind kind height logical_len commitment field_a field_b field_c =
    if kind == leaf_kind
    then decode_leaf height logical_len commitment field_a field_b field_c
    else if kind == branch_kind
    then decode_branch height logical_len commitment field_a field_b field_c
    else err (invalid "v2 node kind is unsupported")

-- `decode_v2_node`
unfoldable pub decode_node : List ℕ → Result FormatError NodeRecord
decode_node bytes = do
  require_record_len "v2 node" bytes node_record_size
  magic ← read_array 4 bytes 0 "v2 node magic is truncated"
  reject (not (same_bytes magic node_magic)) (invalid "v2 node magic mismatch")
  kind ← read_byte bytes 4 "v2 node kind is truncated"
  flags ← read_byte bytes 5 "v2 node flags are truncated"
  reject (not (flags == 0)) (invalid "v2 node flags must be zero")
  height ← read_array 2 bytes 6 "v2 node height is truncated"
  logical_len ← read_array 8 bytes 8 "v2 node logical length is truncated"
  field_a ← read_array 8 bytes 16 "v2 node field A is truncated"
  field_b ← read_array 8 bytes 24 "v2 node field B is truncated"
  field_c ← read_array 8 bytes 32 "v2 node field C is truncated"
  commitment ← read_array 32 bytes 40 "v2 node commitment is truncated"
  decode_kind kind (from_le_bytes height) (from_le_bytes logical_len) commitment
      (from_le_bytes field_a) (from_le_bytes field_b) (from_le_bytes field_c)

-- `decode_v2_root`
unfoldable pub decode_root : List ℕ → Result FormatError RootRecord
decode_root bytes = do
  require_record_len "v2 root" bytes root_record_size
  magic ← read_array 4 bytes 0 "v2 root magic is truncated"
  reject (not (same_bytes magic root_magic)) (invalid "v2 root magic mismatch")
  representation ← read_byte bytes 4 "v2 root representation is truncated"
  reject (not (representation == balanced_representation))
      (invalid "v2 root representation is unsupported")
  flags ← read_byte bytes 5 "v2 root flags are truncated"
  reject (not (flags == 0)) (invalid "v2 root flags must be zero")
  height ← read_array 2 bytes 6 "v2 root height is truncated"
  node_id ← read_array 8 bytes 8 "v2 root node identifier is truncated"
  logical_len ← read_array 8 bytes 16 "v2 root logical length is truncated"
  commitment ← read_array 32 bytes 24 "v2 root commitment is truncated"
  let root : RootRecord = record {
    node_id = from_le_bytes node_id;
    logical_len = from_le_bytes logical_len;
    height = from_le_bytes height;
    commitment = commitment;
  }
  validate_child_root root
  ok root
