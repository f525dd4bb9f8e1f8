-- ===== src/Format/CodecLaws.antt =====
-- What is encoded decodes back.
use tulya_checkpoint_store.Prelude.{
  ℕ, ◌≤◌, ◌≡◌, refl, ◌∙◌, List, ◌∷◌, ◌++◌, arith, length, append-nil, length-append, u16_max,
  u64_max, drop, take, get_elem?, some, ==_iff, ◌==◌, true,
}
use tulya_checkpoint_store.Format.Bytes.{to_le_bytes, from_le_bytes}
use tulya_checkpoint_store.Format.Records.{NodeBody}
use tulya_checkpoint_store.Format.Codec.{
  node_magic, leaf_kind, branch_kind, encode_fields, encode_body, encode_node, require_record_len,
  decode_kind, decode_node,
}
use tulya_checkpoint_store.Format.Fields.{
  u16_back, u64_back, read_array_head, read_array_tail, read_byte_head,
}

-- The first 40 bytes of a node.
unfoldable pub node_head : ℕ → ℕ → ℕ → ℕ → ℕ → ℕ → List ℕ
node_head kind height logical_len a b c =
    node_magic
    ++ (kind
        ∷ 0
        ∷ (to_le_bytes 2 height
            ++ (to_le_bytes 8 logical_len
                ++ (to_le_bytes 8 a ++ (to_le_bytes 8 b ++ to_le_bytes 8 c)))))

length-node_head :
    (kind height logical_len a b c : ℕ) → length (node_head kind height logical_len a b c) ≡ 40
unfolding node_head to_le_bytes
length-node_head kind height logical_len a b c = refl

-- A header and a commitment behind it decode by what stands in the header.
decode_node_fields :
    (head commitment height logical_len a b c : List ℕ) (kind : ℕ)
    → length head ≡ 40
    → length commitment ≡ 32
    → take 4 (drop 0 head) ≡ node_magic
    → get_elem? head 4 ≡ some kind
    → get_elem? head 5 ≡ some 0
    → take 2 (drop 6 head) ≡ height
    → take 8 (drop 8 head) ≡ logical_len
    → take 8 (drop 16 head) ≡ a
    → take 8 (drop 24 head) ≡ b
    → take 8 (drop 32 head) ≡ c
    → decode_node (head ++ commitment)
      ≡ decode_kind kind
          (from_le_bytes height)
          (from_le_bytes logical_len)
          commitment
          (from_le_bytes a)
          (from_le_bytes b)
          (from_le_bytes c)
unfolding decode_node require_record_len
decode_node_fields head commitment height logical_len a b c kind e f magic is_kind flags is_height
      is_len is_a is_b is_c =
    let size : (length (head ++ commitment) == 72) ≡ true =
      (==_iff (length (head ++ commitment)) 72).1
        (omega (arith, e, f, length-append {0} head commitment)) in
    rw
      (
        size,
        read_array_head head commitment 4 0 "v2 node magic is truncated" (omega (arith, e))
            (omega (arith, e)),
        magic,
        read_byte_head head commitment 4 "v2 node kind is truncated" is_kind,
        read_byte_head head commitment 5 "v2 node flags are truncated" flags,
      )
      (rw
        (
          read_array_head head commitment 2 6 "v2 node height is truncated" (omega (arith, e))
              (omega (arith, e)),
          read_array_head head commitment 8 8 "v2 node logical length is truncated"
              (omega (arith, e)) (omega (arith, e)),
          read_array_head head commitment 8 16 "v2 node field A is truncated" (omega (arith, e))
              (omega (arith, e)),
          read_array_head head commitment 8 24 "v2 node field B is truncated" (omega (arith, e))
              (omega (arith, e)),
          read_array_head head commitment 8 32 "v2 node field C is truncated" (omega (arith, e))
              (omega (arith, e)),
          read_array_tail head commitment 32 40 "v2 node commitment is truncated" e f (omega arith),
        )
        (rw (is_height, is_len, is_a, is_b, is_c) refl))

pub encode_leaf :
    (height logical_len a b : ℕ) (commitment : List ℕ)
    → length commitment ≡ 32
    → encode_node (record {
      height = height;
      logical_len = logical_len;
      commitment = commitment;
      body = NodeBody.leaf a b;
    })
      ≡ node_head leaf_kind height logical_len a b 0 ++ commitment
unfolding encode_node encode_body encode_fields node_head to_le_bytes
encode_leaf height logical_len a b commitment e = rw e (append-nil _)

pub encode_branch :
    (height logical_len a b c : ℕ) (commitment : List ℕ)
    → length commitment ≡ 32
    → encode_node (record {
      height = height;
      logical_len = logical_len;
      commitment = commitment;
      body = NodeBody.branch a b c;
    })
      ≡ node_head branch_kind height logical_len a b c ++ commitment
unfolding encode_node encode_body encode_fields node_head to_le_bytes
encode_branch height logical_len a b c commitment e = rw e (append-nil _)

pub decode_node_head :
    (kind height logical_len a b c : ℕ) (commitment : List ℕ)
    → length commitment ≡ 32
    → height ≤ u16_max
    → logical_len ≤ u64_max
    → a ≤ u64_max
    → b ≤ u64_max
    → c ≤ u64_max
    → decode_node (node_head kind height logical_len a b c ++ commitment)
      ≡ decode_kind kind height logical_len commitment a b c
unfolding node_head
decode_node_head kind height logical_len a b c commitment e h1 h2 h3 h4 h5 =
    decode_node_fields (node_head kind height logical_len a b c) commitment (to_le_bytes 2 height)
      (to_le_bytes 8 logical_len) (to_le_bytes 8 a) (to_le_bytes 8 b) (to_le_bytes 8 c) kind
      (length-node_head kind height logical_len a b c) e refl refl refl (unfold to_le_bytes in refl)
      (unfold to_le_bytes in refl) (unfold to_le_bytes in refl) (unfold to_le_bytes in refl)
      (unfold to_le_bytes in refl)
    ∙ rw (u16_back height h1, u64_back logical_len h2, u64_back a h3, u64_back b h4, u64_back c h5)
        refl
