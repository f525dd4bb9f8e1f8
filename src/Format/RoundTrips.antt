-- ===== src/Format/RoundTrips.antt =====
-- Records that are encoded decode to themselves: the canonical ones, which the constructors return.
use tulya_checkpoint_store.Prelude.{
  ℕ, ◌+◌, ◌≤◌, ◌<◌, ◌≢◌, ◌≡◌, refl, sym, ◌∙◌, List, [], ◌∷◌, arith, length, ok, max, u16_max,
  u64_max,
}
use tulya_checkpoint_store.Format.Records.{
  Sha256, NodeBody, NodeRecord, RootRecord, none_node, max_leaf_payload_bytes,
}
use tulya_checkpoint_store.Format.Build
use tulya_checkpoint_store.Format.Build.{
  validate_child_root, abs_diff, leaf_commitment, branch_commitment,
}
use tulya_checkpoint_store.Format.Codec.{
  leaf_kind, branch_kind, encode_node, decode_leaf, decode_branch, decode_kind, decode_node,
}
use tulya_checkpoint_store.Format.CodecLaws.{encode_leaf, encode_branch, decode_node_head}

-- The fields of a body agree with the height and the length, and all fit their widths.
abbrev BodyFits : NodeBody → ℕ → ℕ → Type 0
BodyFits (NodeBody.leaf payload_offset payload_len) height logical_len =
    (height ≡ 1)
    × (payload_len ≡ logical_len)
    × (0 < logical_len)
    × (logical_len ≤ max_leaf_payload_bytes)
    × (payload_offset + logical_len ≤ u64_max)
BodyFits (NodeBody.branch left_node_id right_node_id left_len) height logical_len =
    (2 ≤ height)
    × (height ≤ u16_max)
    × (left_node_id < none_node)
    × (right_node_id < none_node)
    × (0 < left_len)
    × (left_len < logical_len)
    × (logical_len ≤ u64_max)

abbrev pub IsCanonical : NodeRecord → Type 0
IsCanonical node = BodyFits node.body node.height node.logical_len × (length node.commitment ≡ 32)

decode_leaf_fits :
    (a b height logical_len : ℕ) (commitment : List ℕ)
    → BodyFits (NodeBody.leaf a b) height logical_len
    → decode_kind leaf_kind height logical_len commitment a b 0
      ≡ ok (record {
        height = height;
        logical_len = logical_len;
        commitment = commitment;
        body = NodeBody.leaf a b;
      })
unfolding decode_kind decode_leaf
decode_leaf_fits a b height logical_len commitment fits = ground arith

decode_branch_fits :
    (a b c height logical_len : ℕ) (commitment : List ℕ)
    → BodyFits (NodeBody.branch a b c) height logical_len
    → decode_kind branch_kind height logical_len commitment a b c
      ≡ ok (record {
        height = height;
        logical_len = logical_len;
        commitment = commitment;
        body = NodeBody.branch a b c;
      })
unfolding decode_kind decode_branch
decode_branch_fits a b c height logical_len commitment fits = ground arith

body_round_trip :
    (body : NodeBody) (height logical_len : ℕ) (commitment : List ℕ)
    → BodyFits body height logical_len
    → length commitment ≡ 32
    → decode_node (
        encode_node (record {
          height = height;
          logical_len = logical_len;
          commitment = commitment;
          body = body;
        }))
      ≡ ok (record {
        height = height;
        logical_len = logical_len;
        commitment = commitment;
        body = body;
      })
body_round_trip (NodeBody.leaf a b) height logical_len commitment fits e =
    rw (encode_leaf height logical_len a b commitment e) (
      decode_node_head leaf_kind height logical_len a b 0 commitment e (omega arith) (omega arith)
        (omega arith) (omega arith) (omega arith)
      ∙ decode_leaf_fits a b height logical_len commitment fits)
body_round_trip (NodeBody.branch a b c) height logical_len commitment fits e =
    rw (encode_branch height logical_len a b c commitment e) (
      decode_node_head branch_kind height logical_len a b c commitment e (omega arith) (omega arith)
        (omega arith) (omega arith) (omega arith)
      ∙ decode_branch_fits a b c height logical_len commitment fits)

-- A node record whose body agrees with its height and length, whose fields fit their widths and
-- whose commitment has 32 bytes decodes from its encoding as itself.
pub decode_node-encode_node :
    (node : NodeRecord) → IsCanonical node → decode_node (encode_node node) ≡ ok node
decode_node-encode_node node (fits, e) =
    body_round_trip node.body node.height node.logical_len node.commitment fits e

module _ ⦃sha : Sha256⦄ where
  leaf_inv :
      (payload_offset : ℕ) (payload : List ℕ) (node : NodeRecord)
      → Build.leaf payload_offset payload ≡ ok node
      → (0 < length payload)
        × (length payload ≤ max_leaf_payload_bytes)
        × (payload_offset + length payload ≤ u64_max)
        × (record {
          height = 1;
          logical_len = length payload;
          commitment = leaf_commitment (length payload) payload;
          body = NodeBody.leaf payload_offset (length payload);
        }
            ≡ node)
  unfolding Build.leaf
  leaf_inv payload_offset [] node built = absurd (cc built)
  leaf_inv payload_offset (b ∷ payload) node built = ground arith

  pub branch_inv :
      (left right : RootRecord) (node : NodeRecord)
      → Build.branch left right ≡ ok node
      → (left.node_id ≢ none_node)
        × (right.node_id ≢ none_node)
        × (0 < left.logical_len)
        × (0 < right.logical_len)
        × (0 < left.height)
        × (max left.height right.height + 1 ≤ u16_max)
        × (left.logical_len + right.logical_len ≤ u64_max)
        × (record {
          height = max left.height right.height + 1;
          logical_len = left.logical_len + right.logical_len;
          commitment =
              branch_commitment
                (max left.height right.height + 1)
                left.logical_len
                left.commitment
                right.logical_len
                right.commitment;
          body = NodeBody.branch left.node_id right.node_id left.logical_len;
        }
            ≡ node)
  unfolding Build.branch validate_child_root
  branch_inv left right node built = ground arith

  -- Every record that the leaf constructor returns decodes from its encoding as itself.
  pub leaf-decodes :
      (payload_offset : ℕ) (payload : List ℕ) (node : NodeRecord)
      → Build.leaf payload_offset payload ≡ ok node
      → decode_node (encode_node node) ≡ ok node
  unfolding leaf_commitment
  leaf-decodes payload_offset payload node built =
      let (some_bytes, few, fits, is_node) = leaf_inv payload_offset payload node built in
      rw (sym is_node)
        (decode_node-encode_node _ ((refl, refl, some_bytes, few, fits), sha.length-digest _))

  -- Every record that the branch constructor returns for roots whose identifiers fit a `u64` decodes
  -- from its encoding as itself.
  pub branch-decodes :
      (left right : RootRecord) (node : NodeRecord)
      → left.node_id ≤ u64_max
      → right.node_id ≤ u64_max
      → Build.branch left right ≡ ok node
      → decode_node (encode_node node) ≡ ok node
  unfolding branch_commitment
  branch-decodes left right node l r built =
      let (left_named, right_named, left_some, right_some, high, height_fits, fits, is_node) =
        branch_inv left right node built in
      rw (sym is_node) (
        decode_node-encode_node _ (
          (
            omega arith,
            height_fits,
            omega (arith, left_named),
            omega (arith, right_named),
            left_some,
            omega arith,
            fits,
          ),
          sha.length-digest _,
        ))
