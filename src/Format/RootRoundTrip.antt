-- ===== src/Format/RootRoundTrip.antt =====
-- A root that is encoded decodes to itself.
use tulya_checkpoint_store.Prelude.{
  ℕ, ◌≤◌, ◌<◌, ◌≡◌, refl, List, ◌∷◌, ◌++◌, arith, length, length-append, append-nil, ok, u16_max,
  u64_max, true, ◌==◌, ==_iff, take, drop,
}
use tulya_checkpoint_store.Format.Bytes.{to_le_bytes}
use tulya_checkpoint_store.Format.Records.{RootRecord, none_node}
use tulya_checkpoint_store.Format.Build.{validate_child_root}
use tulya_checkpoint_store.Format.Codec.{
  root_magic, balanced_representation, encode_root, require_record_len, decode_root,
}
use tulya_checkpoint_store.Format.Fields.{
  u16_back, u64_back, read_array_head, read_array_tail, read_byte_head,
}

-- The first 24 bytes of a root.
root_head : ℕ → ℕ → ℕ → List ℕ
root_head height node_id logical_len =
    root_magic
    ++ (balanced_representation
        ∷ 0
        ∷ (to_le_bytes 2 height ++ (to_le_bytes 8 node_id ++ to_le_bytes 8 logical_len)))

encode_root_eq :
    (height node_id logical_len : ℕ) (commitment : List ℕ)
    → length commitment ≡ 32
    → encode_root (record {
      node_id = node_id;
      logical_len = logical_len;
      height = height;
      commitment = commitment;
    })
      ≡ root_head height node_id logical_len ++ commitment
unfolding encode_root root_head to_le_bytes
encode_root_eq height node_id logical_len commitment e = rw e (append-nil _)

length-root_head :
    (height node_id logical_len : ℕ) → length (root_head height node_id logical_len) ≡ 24
unfolding root_head to_le_bytes
length-root_head height node_id logical_len = refl

take_magic :
    (height node_id logical_len : ℕ)
    → take 4 (drop 0 (root_head height node_id logical_len)) ≡ root_magic
unfolding root_head
take_magic height node_id logical_len = refl

take_height :
    (height node_id logical_len : ℕ)
    → take 2 (drop 6 (root_head height node_id logical_len)) ≡ to_le_bytes 2 height
unfolding root_head to_le_bytes
take_height height node_id logical_len = refl

take_node_id :
    (height node_id logical_len : ℕ)
    → take 8 (drop 8 (root_head height node_id logical_len)) ≡ to_le_bytes 8 node_id
unfolding root_head to_le_bytes
take_node_id height node_id logical_len = refl

take_logical_len :
    (height node_id logical_len : ℕ)
    → take 8 (drop 16 (root_head height node_id logical_len)) ≡ to_le_bytes 8 logical_len
unfolding root_head to_le_bytes
take_logical_len height node_id logical_len = refl

-- What a root must be to be stored: its fields fit, none is reserved, the commitment has 32 bytes.
abbrev pub IsStorable : RootRecord → Type 0
IsStorable root =
    (root.node_id < none_node)
    × (0 < root.logical_len)
    × (root.logical_len ≤ u64_max)
    × (0 < root.height)
    × (root.height ≤ u16_max)
    × (length root.commitment ≡ 32)

validate_storable : (root : RootRecord) → IsStorable root → validate_child_root root ≡ ok tt
unfolding validate_child_root
validate_storable root storable = ground arith

decode_root_head :
    (root : RootRecord)
    → IsStorable root
    → decode_root (root_head root.height root.node_id root.logical_len ++ root.commitment) ≡ ok root
unfolding decode_root require_record_len
decode_root_head root storable =
    let (named, some_bytes, len_fits, high, height_fits, e) = storable in
    let head = root_head root.height root.node_id root.logical_len in
    let f : length head ≡ 24 = length-root_head root.height root.node_id root.logical_len in
    let size : (length (head ++ root.commitment) == 56) ≡ true =
      (==_iff (length (head ++ root.commitment)) 56).1
        (omega (arith, e, f, length-append {0} head root.commitment)) in
    rw
      (
        size,
        read_array_head head root.commitment 4 0 "v2 root magic is truncated" (omega (arith, f))
            (omega (arith, f)),
        take_magic root.height root.node_id root.logical_len,
        read_byte_head head root.commitment 4 {b = 1} "v2 root representation is truncated"
            (unfold root_head in refl),
        read_byte_head head root.commitment 5 {b = 0} "v2 root flags are truncated"
            (unfold root_head in refl),
      )
      (rw
        (
          read_array_head head root.commitment 2 6 "v2 root height is truncated" (omega (arith, f))
              (omega (arith, f)),
          read_array_head head root.commitment 8 8 "v2 root node identifier is truncated"
              (omega (arith, f)) (omega (arith, f)),
          read_array_head head root.commitment 8 16 "v2 root logical length is truncated"
              (omega (arith, f)) (omega (arith, f)),
          read_array_tail head root.commitment 32 24 "v2 root commitment is truncated" f e
              (omega arith),
        )
        (rw
          (
            take_height root.height root.node_id root.logical_len,
            take_node_id root.height root.node_id root.logical_len,
            take_logical_len root.height root.node_id root.logical_len,
            u16_back root.height height_fits,
            u64_back root.node_id (omega arith),
            u64_back root.logical_len len_fits,
          )
          (rw (validate_storable root storable) refl)))

-- A root whose fields fit their widths, with an identifier that is not reserved, a positive length
-- and height and a commitment of 32 bytes, decodes from its encoding as itself.
pub decode_root-encode_root :
    (root : RootRecord) → IsStorable root → decode_root (encode_root root) ≡ ok root
decode_root-encode_root root storable =
    rw (encode_root_eq root.height root.node_id root.logical_len root.commitment storable.5)
      (decode_root_head root storable)

pub length-encode_root :
    (root : RootRecord) → length root.commitment ≡ 32 → length (encode_root root) ≡ 56
length-encode_root root e =
    rw (encode_root_eq root.height root.node_id root.logical_len root.commitment e) (
      omega (
        arith,
        e,
        length-root_head root.height root.node_id root.logical_len,
        length-append {0} (root_head root.height root.node_id root.logical_len) root.commitment,
      ))
