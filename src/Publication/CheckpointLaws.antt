-- ===== src/Publication/CheckpointLaws.antt =====
-- A checkpoint that is encoded decodes to itself.
use tulya_checkpoint_store.Prelude.{
  ℕ, ◌+◌, ◌≤◌, ◌<◌, ◌≡◌, ◌∙◌, refl, ap, sym, List, ◌++◌, some, ==_iff, arith, length, length-append,
  take, drop, ok, ok_of_then, ne→==, drop-drop, le→ltb, bind_inv, u32_max,
}
use tulya_checkpoint_store.Format.Bytes.{to_le_bytes, from_le_bytes}
use tulya_checkpoint_store.Format.Fields.{u64_back}
use tulya_checkpoint_store.Publication.Records.{
  Utf8, CheckpointRecord, none_version, invalid, overflow,
}
use tulya_checkpoint_store.Publication.Checks.{encode_optional_version, read_u32, read_u64}
use tulya_checkpoint_store.Publication.VersionLaws.{optional_back, optional_fits}
use tulya_checkpoint_store.Publication.Checkpoint.{
  parent_or_empty, EncodingGeometry, validate_fields, checkpoint_prefix, encode_checkpoint,
  decode_identifiers, decode_lengths, decode_checkpoint,
}
use tulya_checkpoint_store.Publication.CheckpointPrefix.{
  length-checkpoint_prefix, read_prefix, read_commitment, behind_commitment, u32_field,
  prefix_fields, prefix_magic,
}
use tulya_checkpoint_store.Publication.CheckpointParts.{
  ReferencesWithin, IsTyped, Measures, geometry_inv, decode_identifiers_found, reference_found,
  references_found, fields_inv,
}

-- The reads from the number of the checkpoint to its result, and the checks between them.
decode_checkpoint_head :
    ⦃text : Utf8⦄
    → (geometry : EncodingGeometry) (checkpoint : CheckpointRecord) (tail : List ℕ)
      (version_count : ℕ)
    → length checkpoint.state.commitment ≡ 32
    → 88 + length tail ≡ geometry.record_len
    → geometry.record_len ≤ u32_max
    → checkpoint.checkpoint_no ≤ u32_max
    → ReferencesWithin version_count checkpoint
    → version_count ≤ u32_max
    → decode_checkpoint (checkpoint_prefix geometry checkpoint ++ tail) version_count
      ≡ decode_lengths
          (checkpoint_prefix geometry checkpoint ++ tail)
          checkpoint.checkpoint_no
          checkpoint.identity_version
          checkpoint.messages_version
          checkpoint.result_version
unfolding decode_checkpoint read_u32
decode_checkpoint_head geometry checkpoint tail version_count e size small number references
      counted =
    let (identity, messages, result) = references in
    let bytes = checkpoint_prefix geometry checkpoint ++ tail in
    let f = length-checkpoint_prefix geometry checkpoint e in
    let total : length bytes ≡ geometry.record_len =
      omega (arith, f, size, length-append {0} (checkpoint_prefix geometry checkpoint) tail) in
    let (at4, at8, at12, at16, at20, at24, at28, at32, at36, at40) =
      prefix_fields geometry checkpoint in
    let m_small : (v : ℕ) → checkpoint.messages_version ≡ some v → v < none_version =
      λ v h. omega (arith, messages v h) in
    let r_small : (v : ℕ) → checkpoint.result_version ≡ some v → v < none_version =
      λ v h. omega (arith, result v h) in
    rw
      (
        le→ltb (length bytes) 88 (omega (arith, total, size)),
        prefix_magic geometry checkpoint tail,
        read_prefix geometry checkpoint e tail 4 4
            (overflow "v2 publication u32 range exceeds usize")
            (invalid "v2 checkpoint record length is truncated") (omega arith),
        u32_field _ geometry.record_len small at4,
        (==_iff geometry.record_len (length bytes)).1 (sym total),
        read_prefix geometry checkpoint e tail 4 8
            (overflow "v2 publication u32 range exceeds usize")
            (invalid "v2 checkpoint number is truncated") (omega arith),
        u32_field _ checkpoint.checkpoint_no number at8,
        read_prefix geometry checkpoint e tail 4 12
            (overflow "v2 publication u32 range exceeds usize")
            (invalid "v2 identity version is truncated") (omega arith),
        u32_field _ checkpoint.identity_version (omega (arith, identity)) at12,
        read_prefix geometry checkpoint e tail 4 16
            (overflow "v2 publication u32 range exceeds usize")
            (invalid "v2 messages version is truncated") (omega arith),
        u32_field _ (encode_optional_version checkpoint.messages_version) (optional_fits _ m_small)
            at16,
        optional_back checkpoint.messages_version m_small,
        read_prefix geometry checkpoint e tail 4 20
            (overflow "v2 publication u32 range exceeds usize")
            (invalid "v2 result version is truncated") (omega arith),
        u32_field _ (encode_optional_version checkpoint.result_version) (optional_fits _ r_small)
            at20,
        optional_back checkpoint.result_version r_small,
        reference_found checkpoint.identity_version version_count identity counted,
        references_found checkpoint.messages_version version_count messages counted,
        references_found checkpoint.result_version version_count result counted,
      )
      refl

zero_fields :
    (from_le_bytes (take 4 (to_le_bytes 4 0 ++ to_le_bytes 4 0)) ≡ 0)
    × (from_le_bytes (take 4 (drop 4 (to_le_bytes 4 0 ++ to_le_bytes 4 0))) ≡ 0)
unfolding to_le_bytes from_le_bytes
zero_fields = (refl, refl)

-- The reads from the lengths of the identifiers on.
decode_lengths_head :
    ⦃text : Utf8⦄
    → (geometry : EncodingGeometry) (checkpoint : CheckpointRecord) (tail : List ℕ)
    → IsTyped checkpoint
    → Measures geometry checkpoint
    → validate_fields checkpoint ≡ ok tt
    → decode_lengths
        (checkpoint_prefix geometry checkpoint ++ tail)
        checkpoint.checkpoint_no
        checkpoint.identity_version
        checkpoint.messages_version
        checkpoint.result_version
      ≡ decode_identifiers
          (checkpoint_prefix geometry checkpoint ++ tail)
          (length checkpoint.thread_id)
          (length checkpoint.checkpoint_id)
          (length (parent_or_empty checkpoint.parent_checkpoint_id))
          (λ thread_id checkpoint_id parent. record {
            checkpoint_no = checkpoint.checkpoint_no;
            thread_id = thread_id;
            checkpoint_id = checkpoint_id;
            parent_checkpoint_id = parent;
            identity_version = checkpoint.identity_version;
            messages_version = checkpoint.messages_version;
            result_version = checkpoint.result_version;
            state = checkpoint.state;
          })
unfolding decode_lengths read_u32 read_u64
decode_lengths_head geometry checkpoint tail (number, len_fits, e, ut, ui, up)
      (t, i, p, total, small) valid =
    let (t0, t1, i0, i1, p1, long, back) = fields_inv checkpoint valid in
    let (at4, at8, at12, at16, at20, at24, at28, at32, at36, at40) =
      prefix_fields geometry checkpoint in
    rw
      (
        read_prefix geometry checkpoint e tail 4 24
            (overflow "v2 publication u32 range exceeds usize")
            (invalid "v2 checkpoint thread length is truncated") (omega arith),
        u32_field _ (length checkpoint.thread_id) (omega arith) (at24 ∙ ap (to_le_bytes 4) t),
        read_prefix geometry checkpoint e tail 4 28
            (overflow "v2 publication u32 range exceeds usize")
            (invalid "v2 checkpoint id length is truncated") (omega arith),
        u32_field _ (length checkpoint.checkpoint_id) (omega arith) (at28 ∙ ap (to_le_bytes 4) i),
        read_prefix geometry checkpoint e tail 4 32
            (overflow "v2 publication u32 range exceeds usize")
            (invalid "v2 checkpoint parent length is truncated") (omega arith),
        u32_field _ (length (parent_or_empty checkpoint.parent_checkpoint_id)) (omega arith)
            (at32 ∙ ap (to_le_bytes 4) p),
        ne→== (length checkpoint.thread_id) 0 (λ h. omega arith),
        le→ltb 4096 (length checkpoint.thread_id) t1,
        ne→== (length checkpoint.checkpoint_id) 0 (λ h. omega arith),
        le→ltb 4096 (length checkpoint.checkpoint_id) i1,
        le→ltb 4096 (length (parent_or_empty checkpoint.parent_checkpoint_id)) p1,
        read_prefix geometry checkpoint e tail 4 36
            (overflow "v2 publication u32 range exceeds usize")
            (invalid "v2 checkpoint schema is truncated") (omega arith),
        u32_field _ 1 (omega arith) at36,
        read_prefix geometry checkpoint e tail 8 40
            (overflow "v2 publication u64 range exceeds usize")
            (invalid "v2 checkpoint logical length is truncated") (omega arith),
        at40,
        u64_back checkpoint.state.logical_len len_fits,
        le→ltb checkpoint.state.logical_len 28 long,
        read_commitment geometry checkpoint e tail
            (invalid "v2 checkpoint commitment is truncated"),
        read_prefix geometry checkpoint e tail 4 80
            (overflow "v2 publication u32 range exceeds usize")
            (invalid "v2 checkpoint flags are truncated") (omega arith),
        behind_commitment geometry checkpoint e,
        zero_fields.0,
        read_prefix geometry checkpoint e tail 4 84
            (overflow "v2 publication u32 range exceeds usize")
            (invalid "v2 checkpoint reserved field is truncated") (omega arith),
        sym (drop-drop 4 80 (checkpoint_prefix geometry checkpoint)),
        behind_commitment geometry checkpoint e,
        zero_fields.1,
      )
      refl

-- A checkpoint that is encoded, whose fields have the types of the source and whose versions are
-- below a 32-bit count of versions, decodes from its encoding under that count as itself.
pub decode_checkpoint-encode_checkpoint :
    ⦃text : Utf8⦄
    → (checkpoint : CheckpointRecord) (version_count : ℕ) {bytes : List ℕ} → IsTyped checkpoint
    → ReferencesWithin version_count checkpoint
    → version_count ≤ u32_max
    → encode_checkpoint checkpoint ≡ ok bytes
    → decode_checkpoint bytes version_count ≡ ok checkpoint
unfolding encode_checkpoint
decode_checkpoint-encode_checkpoint checkpoint version_count {bytes} typed references counted h =
    let (number, len_fits, e, ut, ui, up) = typed in
    let (geometry, measured, rest) = bind_inv h in
    let (valid, measures) = geometry_inv checkpoint geometry measured in
    let (t, i, p, total, small) = measures in
    let (t0, t1, i0, i1, p1, long, back) = fields_inv checkpoint valid in
    let thread = checkpoint.thread_id in
    let id = checkpoint.checkpoint_id in
    let parent = parent_or_empty checkpoint.parent_checkpoint_id in
    let prefix = checkpoint_prefix geometry checkpoint in
    let size : 88 + length (thread ++ (id ++ parent)) ≡ geometry.record_len =
      omega (arith, total, length-append {0} thread (id ++ parent), length-append {0} id parent) in
    let same : bytes ≡ prefix ++ (thread ++ (id ++ parent)) = ok_of_then _ rest in
    rw (same) (
      decode_checkpoint_head geometry checkpoint (thread ++ (id ++ parent)) version_count e size
        small number references counted
      ∙ decode_lengths_head geometry checkpoint (thread ++ (id ++ parent)) typed measures valid
      ∙ decode_identifiers_found prefix thread id parent _
          (length-checkpoint_prefix geometry checkpoint e) t1 i1 p1 ut ui up
      ∙ rw (back) refl)
