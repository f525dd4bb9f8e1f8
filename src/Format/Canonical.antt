-- ===== src/Format/Canonical.antt =====
-- The decoder of nodes accepts canonical bytes only: what decodes encodes to the same bytes.
use tulya_checkpoint_store.Prelude.{
  bind_inv, reject_inv, true_of_not, ℕ, ◌+◌, ◌≡◌, ◌⊎◌, inl, inr, sym, ap, ◌∙◌, List, ◌∷◌, ◌++◌,
  append_assoc, arith, length, length-take, length-drop, take, drop, take-append-drop, drop-drop,
  take_all, get_elem?, some, ok, ==_iff,
}
use tulya_checkpoint_store.Format.Bytes.{from_le_bytes}
use tulya_checkpoint_store.Format.Records.{NodeBody, NodeRecord}
use tulya_checkpoint_store.Format.Codec.{
  node_magic, leaf_kind, branch_kind, encode_node, require_record_len, decode_leaf, decode_branch,
  decode_kind, decode_node,
}
use tulya_checkpoint_store.Format.CodecLaws.{node_head, encode_leaf, encode_branch}
use tulya_checkpoint_store.Format.ByteLists.{
  AllBytes, field_back, same_bytes-eq, read_array_inv, read_byte_inv, drop_at,
}

decode_kind_inv :
    (kind height logical_len : ℕ) (commitment : List ℕ) (a b c : ℕ) (node : NodeRecord)
    → decode_kind kind height logical_len commitment a b c ≡ ok node
    → ((kind ≡ leaf_kind)
        × (c ≡ 0)
        × (record {
          height = height;
          logical_len = logical_len;
          commitment = commitment;
          body = NodeBody.leaf a b;
        }
            ≡ node))
      ⊎ ((kind ≡ branch_kind)
          × (record {
            height = height;
            logical_len = logical_len;
            commitment = commitment;
            body = NodeBody.branch a b c;
          }
              ≡ node))
unfolding decode_kind decode_leaf decode_branch
decode_kind_inv kind height logical_len commitment a b c node h = ground arith

-- What a decoded node says of the bytes.
record Decoded (bytes : List ℕ) (node : NodeRecord) : Type 0 where
  kind : ℕ
  size : length bytes ≡ 72
  magic : take 4 bytes ≡ node_magic
  is_kind : get_elem? bytes 4 ≡ some kind
  no_flags : get_elem? bytes 5 ≡ some 0
  fields :
      decode_kind kind
        (from_le_bytes (take 2 (drop 6 bytes)))
        (from_le_bytes (take 8 (drop 8 bytes)))
        (take 32 (drop 40 bytes))
        (from_le_bytes (take 8 (drop 16 bytes)))
        (from_le_bytes (take 8 (drop 24 bytes)))
        (from_le_bytes (take 8 (drop 32 bytes)))
      ≡ ok node

decode_node_inv :
    (bytes : List ℕ) (node : NodeRecord) → decode_node bytes ≡ ok node → Decoded bytes node
unfolding decode_node require_record_len
decode_node_inv bytes node h0 =
    let (u0, size, h1) = bind_inv h0 in
    let (magic, is_magic, h2) = bind_inv h1 in
    let (u1, same, h3) = bind_inv h2 in
    let (kind, is_kind, h4) = bind_inv h3 in
    let (flags, is_flags, h5) = bind_inv h4 in
    let (u2, zero_flags, h6) = bind_inv h5 in
    let (height, is_height, h7) = bind_inv h6 in
    let (len, is_len, h8) = bind_inv h7 in
    let (a, is_a, h9) = bind_inv h8 in
    let (b, is_b, h10) = bind_inv h9 in
    let (c, is_c, h11) = bind_inv h10 in
    let (commitment, is_commitment, h12) = bind_inv h11 in
    let flags_eq : flags ≡ 0 = (==_iff flags 0).0 (true_of_not (reject_inv _ _ zero_flags)) in
    record {
      kind = kind;
      size = (==_iff (length bytes) 72).0 (true_of_not (reject_inv _ _ size));
      magic =
          sym (read_array_inv 4 0 bytes _ is_magic)
          ∙ same_bytes-eq magic node_magic (true_of_not (reject_inv _ _ same));
      is_kind = read_byte_inv 4 bytes _ is_kind;
      no_flags = read_byte_inv 5 bytes _ is_flags ∙ ap some flags_eq;
      fields =
          rw⁻¹
            (
              read_array_inv 2 6 bytes _ is_height,
              read_array_inv 8 8 bytes _ is_len,
              read_array_inv 8 16 bytes _ is_a,
              read_array_inv 8 24 bytes _ is_b,
              read_array_inv 8 32 bytes _ is_c,
              read_array_inv 32 40 bytes _ is_commitment,
            )
            h12;
    }

cut :
    (offset n : ℕ) (bytes : List ℕ)
    → drop offset bytes ≡ take n (drop offset bytes) ++ drop (offset + n) bytes
cut offset n bytes =
    sym (take-append-drop n (drop offset bytes))
    ∙ ap (λ r. take n (drop offset bytes) ++ r) (drop-drop n offset bytes)

-- The bytes of a node are its parts, one behind the other.
parts :
    (bytes : List ℕ) (kind : ℕ)
    → take 4 bytes ≡ node_magic
    → get_elem? bytes 4 ≡ some kind
    → get_elem? bytes 5 ≡ some 0
    → bytes
      ≡ node_magic
        ++ (kind
            ∷ 0
            ∷ (take 2 (drop 6 bytes)
                ++ (take 8 (drop 8 bytes)
                    ++ (take 8 (drop 16 bytes)
                        ++ (take 8 (drop 24 bytes) ++ (take 8 (drop 32 bytes) ++ drop 40 bytes))))))
parts bytes kind magic is_kind no_flags =
    sym (take-append-drop 4 bytes)
    ∙ ap (λ m. m ++ drop 4 bytes) magic
    ∙ ap (λ r. node_magic ++ r)
        (drop_at 4 bytes is_kind
          ∙ ap (λ r. kind ∷ r)
              (drop_at 5 bytes no_flags
                ∙ ap (λ r. 0 ∷ r)
                    (cut 6 2 bytes
                      ∙ ap (λ r. take 2 (drop 6 bytes) ++ r)
                          (cut 8 8 bytes
                            ∙ ap (λ r. take 8 (drop 8 bytes) ++ r)
                                (cut 16 8 bytes
                                  ∙ ap (λ r. take 8 (drop 16 bytes) ++ r)
                                      (cut 24 8 bytes
                                        ∙ ap (λ r. take 8 (drop 24 bytes) ++ r)
                                            (cut 32 8 bytes)))))))

join :
    (a b c d e f : List ℕ) → (a ++ (b ++ (c ++ (d ++ e)))) ++ f ≡ a ++ (b ++ (c ++ (d ++ (e ++ f))))
join a b c d e f = simp append_assoc

-- The header of the decoded fields, with the commitment behind it, is the bytes that they came from.
node_head-parts :
    (bytes : List ℕ) (node : NodeRecord)
    → AllBytes bytes
    → (d : Decoded bytes node)
    → node_head d.kind
          (from_le_bytes (take 2 (drop 6 bytes)))
          (from_le_bytes (take 8 (drop 8 bytes)))
          (from_le_bytes (take 8 (drop 16 bytes)))
          (from_le_bytes (take 8 (drop 24 bytes)))
          (from_le_bytes (take 8 (drop 32 bytes)))
        ++ take 32 (drop 40 bytes)
      ≡ bytes
unfolding node_head
node_head-parts bytes node h d =
    rw
      (
        field_back 2 6 bytes h (omega (arith, d.size)),
        field_back 8 8 bytes h (omega (arith, d.size)),
        field_back 8 16 bytes h (omega (arith, d.size)),
        field_back 8 24 bytes h (omega (arith, d.size)),
        field_back 8 32 bytes h (omega (arith, d.size)),
        take_all 32 (drop 40 bytes) (omega (arith, d.size, length-drop {0} 40 bytes)),
      )
      (ap (λ r. node_magic ++ (d.kind ∷ 0 ∷ r))
          (join (take 2 (drop 6 bytes)) (take 8 (drop 8 bytes)) (take 8 (drop 16 bytes))
            (take 8 (drop 24 bytes)) (take 8 (drop 32 bytes)) (drop 40 bytes))
        ∙ sym (parts bytes d.kind d.magic d.is_kind d.no_flags))

encode_node-Decoded :
    (bytes : List ℕ) (node : NodeRecord)
    → AllBytes bytes
    → Decoded bytes node
    → encode_node node ≡ bytes
encode_node-Decoded bytes node h d =
    let size : length (take 32 (drop 40 bytes)) ≡ 32 =
      omega (arith, d.size, length-take {0} 32 (drop 40 bytes), length-drop {0} 40 bytes) in
    let height = from_le_bytes (take 2 (drop 6 bytes)) in
    let len = from_le_bytes (take 8 (drop 8 bytes)) in
    let a = from_le_bytes (take 8 (drop 16 bytes)) in
    let b = from_le_bytes (take 8 (drop 24 bytes)) in
    let c = from_le_bytes (take 8 (drop 32 bytes)) in
    let commitment = take 32 (drop 40 bytes) in
    elim (decode_kind_inv d.kind height len commitment a b c node d.fields) [
      | inl (is_leaf, no_c, is_node) ↦
          ap encode_node (sym is_node)
          ∙ encode_leaf height len a b commitment size
          ∙ ap (λ k. node_head k height len a b 0 ++ commitment) (sym is_leaf)
          ∙ ap (λ z. node_head d.kind height len a b z ++ commitment) (sym no_c)
          ∙ node_head-parts bytes node h d
      | inr (is_branch, is_node) ↦
          ap encode_node (sym is_node)
          ∙ encode_branch height len a b c commitment size
          ∙ ap (λ k. node_head k height len a b c ++ commitment) (sym is_branch)
          ∙ node_head-parts bytes node h d
    ]

-- Bytes that decode as a node are what that node encodes to: no two byte strings stand for one node,
-- and no ignored bit can be changed.
pub encode_node-decode_node :
    (bytes : List ℕ) (node : NodeRecord)
    → AllBytes bytes
    → decode_node bytes ≡ ok node
    → encode_node node ≡ bytes
encode_node-decode_node bytes node h decoded =
    encode_node-Decoded bytes node h (decode_node_inv bytes node decoded)
