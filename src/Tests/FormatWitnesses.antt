-- ===== src/Tests/FormatWitnesses.antt =====
-- The theorems on the codec at a leaf of three bytes, a branch of two roots, and a root.
use tulya_checkpoint_store.Prelude.{ℕ, ◌≡◌, refl, List, [], ◌∷◌, arith, ok, replicate}
use tulya_checkpoint_store.Format.Records.{NodeBody, NodeRecord, RootRecord}
use tulya_checkpoint_store.Format.Build
use tulya_checkpoint_store.Format.Build.{leaf_commitment, branch_commitment, validate_child_root}
use tulya_checkpoint_store.Format.Bytes.{from_le_bytes}
use tulya_checkpoint_store.Format.Codec.{
  encode_node, decode_node, encode_root, decode_root, require_record_len, read_array, read_byte,
  decode_kind, decode_branch,
}
use tulya_checkpoint_store.Format.ByteLists.{AllBytes}
use tulya_checkpoint_store.Format.Canonical.{encode_node-decode_node}
use tulya_checkpoint_store.Format.RoundTrips.{decode_node-encode_node, leaf-decodes, branch-decodes}
use tulya_checkpoint_store.Format.RootRoundTrip.{decode_root-encode_root}
use tulya_checkpoint_store.Tests.Fixtures.{checksum_sha}

abbrev branch_node : NodeRecord
branch_node = record {
  height = 2;
  logical_len = 500;
  commitment = replicate 32 7;
  body = NodeBody.branch 3 4 300;
}

decode_node-encode_node_example : decode_node (encode_node branch_node) ≡ ok branch_node
decode_node-encode_node_example = decode_node-encode_node branch_node (
  (omega arith, omega arith, omega arith, omega arith, omega arith, omega arith, omega arith),
  refl,
)

abbrev leaf_node : NodeRecord
leaf_node = record {
  height = 1;
  logical_len = 3;
  commitment = leaf_commitment 3 (1 ∷ 2 ∷ 3 ∷ []);
  body = NodeBody.leaf 300 3;
}

leaf-built : Build.leaf 300 (1 ∷ 2 ∷ 3 ∷ []) ≡ ok leaf_node
unfolding Build.leaf
leaf-built = refl

leaf-decodes_example : decode_node (encode_node leaf_node) ≡ ok leaf_node
leaf-decodes_example = leaf-decodes 300 (1 ∷ 2 ∷ 3 ∷ []) leaf_node leaf-built

abbrev some_root : RootRecord
some_root = record { node_id = 70000; logical_len = 258; height = 3; commitment = replicate 32 9 }

abbrev above : NodeRecord
above = record {
  height = 4;
  logical_len = 516;
  commitment = branch_commitment 4 258 (replicate 32 9) 258 (replicate 32 9);
  body = NodeBody.branch 70000 70000 258;
}

branch-built : Build.branch some_root some_root ≡ ok above
unfolding Build.branch validate_child_root
branch-built = refl

branch-decodes_example : decode_node (encode_node above) ≡ ok above
branch-decodes_example =
    branch-decodes some_root some_root above (omega arith) (omega arith) branch-built

decode_root-encode_root_example : decode_root (encode_root some_root) ≡ ok some_root
decode_root-encode_root_example =
    decode_root-encode_root some_root
      (omega arith, omega arith, omega arith, omega arith, omega arith, refl)

abbrev branch_bytes : List ℕ
branch_bytes =
    84
    ∷ 50
    ∷ 78
    ∷ 50
    ∷ 2
    ∷ 0
    ∷ 2
    ∷ 0
    ∷ 244
    ∷ 1
    ∷ 0
    ∷ 0
    ∷ 0
    ∷ 0
    ∷ 0
    ∷ 0
    ∷ 3
    ∷ 0
    ∷ 0
    ∷ 0
    ∷ 0
    ∷ 0
    ∷ 0
    ∷ 0
    ∷ 4
    ∷ 0
    ∷ 0
    ∷ 0
    ∷ 0
    ∷ 0
    ∷ 0
    ∷ 0
    ∷ 44
    ∷ 1
    ∷ 0
    ∷ 0
    ∷ 0
    ∷ 0
    ∷ 0
    ∷ 0
    ∷ replicate 32 7

branch_bytes-AllBytes : AllBytes branch_bytes
branch_bytes-AllBytes = omega arith

branch_bytes_decode : decode_node branch_bytes ≡ ok branch_node
unfolding decode_node require_record_len read_array read_byte decode_kind decode_branch
    from_le_bytes
branch_bytes_decode = refl

encode_node-decode_node_example : encode_node branch_node ≡ branch_bytes
encode_node-decode_node_example =
    encode_node-decode_node branch_bytes branch_node branch_bytes-AllBytes branch_bytes_decode
