-- ===== src/Publication/CheckpointParts.antt =====
-- The parts of a checkpoint: what its checks leave, and how its identifiers are read back.
use tulya_checkpoint_store.Prelude.{
  ℕ, ◌+◌, ◌≤◌, ◌<◌, ◌≡◌, ◌∙◌, refl, ap, sym, List, [], ◌∷◌, ◌++◌, Option, none, some, true, ◌==◌,
  ==_iff, arith, length, length-append, is_empty, slice, append_assoc, if◌then◌else◌, ok, then_inv,
  ltb→le, bind_inv, reject_inv, u32_max, u64_max, le→leb,
}
use tulya_checkpoint_store.Format.Reads.{get_or_err_found, slice_middle, slice_tail}
use tulya_checkpoint_store.Publication.Records.{Utf8, CheckpointRecord, invalid}
use tulya_checkpoint_store.Publication.Checks.{
  validate_identifier, validate_encodable_version_reference, validate_version_reference, check_some,
  decode_identifier,
}
use tulya_checkpoint_store.Publication.Checkpoint.{
  parent_or_empty, EncodingGeometry, validate_fields, checkpoint_encoding_geometry,
  decode_identifiers,
}

-- The references of a checkpoint are to committed versions.
abbrev pub ReferencesWithin : ℕ → CheckpointRecord → Type 0
ReferencesWithin version_count checkpoint =
    (checkpoint.identity_version < version_count)
    × ((v : ℕ) → checkpoint.messages_version ≡ some v → v < version_count)
    × ((v : ℕ) → checkpoint.result_version ≡ some v → v < version_count)

-- The fields have the types of the source: numbers of their widths, 32 bytes, and text.
abbrev pub IsTyped : ⦃text : Utf8⦄ → CheckpointRecord → Type 0
IsTyped ⦃text⦄ checkpoint =
    (checkpoint.checkpoint_no ≤ u32_max)
    × (checkpoint.state.logical_len ≤ u64_max)
    × (length checkpoint.state.commitment ≡ 32)
    × (text.is_utf8 checkpoint.thread_id ≡ true)
    × (text.is_utf8 checkpoint.checkpoint_id ≡ true)
    × (text.is_utf8 (parent_or_empty checkpoint.parent_checkpoint_id) ≡ true)

-- The geometry agrees with the record.
abbrev pub Measures : EncodingGeometry → CheckpointRecord → Type 0
Measures geometry checkpoint =
    (geometry.thread_len ≡ length checkpoint.thread_id)
    × (geometry.checkpoint_len ≡ length checkpoint.checkpoint_id)
    × (geometry.parent_len ≡ length (parent_or_empty checkpoint.parent_checkpoint_id))
    × (geometry.record_len
        ≡ 88
          + length checkpoint.thread_id
          + length checkpoint.checkpoint_id
          + length (parent_or_empty checkpoint.parent_checkpoint_id))
    × (geometry.record_len ≤ u32_max)

pub geometry_inv :
    (checkpoint : CheckpointRecord) (geometry : EncodingGeometry)
    → checkpoint_encoding_geometry checkpoint ≡ ok geometry
    → (validate_fields checkpoint ≡ ok tt) × Measures geometry checkpoint
unfolding checkpoint_encoding_geometry
geometry_inv checkpoint geometry h = let (u, valid, rest) = bind_inv h in (valid, ground arith)

identifier_inv :
    (value : List ℕ) (message : _)
    → validate_identifier value message ≡ ok tt
    → (0 < length value) × (length value ≤ 4096)
unfolding validate_identifier
identifier_inv [] message h = ground arith
identifier_inv (b ∷ value) message h = (omega arith, ground arith)

-- The identifiers behind a prefix of 88 bytes are found by their lengths.
pub decode_identifiers_found :
    ⦃text : Utf8⦄
    → (head thread id parent : List ℕ)
      (build : List ℕ → List ℕ → Option (List ℕ) → CheckpointRecord)
    → length head ≡ 88
    → length thread ≤ 4096
    → length id ≤ 4096
    → length parent ≤ 4096
    → text.is_utf8 thread ≡ true
    → text.is_utf8 id ≡ true
    → text.is_utf8 parent ≡ true
    → decode_identifiers
        (head ++ (thread ++ (id ++ parent)))
        (length thread)
        (length id)
        (length parent)
        build
      ≡ ok (build thread id (if is_empty parent then none else some parent))
unfolding decode_identifiers decode_identifier
decode_identifiers_found ⦃text⦄ head thread id parent build e t c p ut uc up =
    let bytes = head ++ (thread ++ (id ++ parent)) in
    let total : length bytes ≡ 88 + (length thread + length id + length parent) = omega (
      arith,
      e,
      length-append {0} head (thread ++ (id ++ parent)),
      length-append {0} thread (id ++ parent),
      length-append {0} id parent,
    ) in
    let size : (88 + (length thread + length id + length parent) == length bytes) ≡ true =
      (==_iff _ (length bytes)).1 (sym total) in
    rw
      (
        le→leb (length thread + length id) u64_max (omega arith),
        le→leb (length thread + length id + length parent) u64_max (omega arith),
        le→leb (88 + (length thread + length id + length parent)) u64_max (omega arith),
        size,
        get_or_err_found bytes 88 (88 + length thread)
            (invalid "v2 checkpoint thread bytes are truncated")
            (slice_middle head thread (id ++ parent) 88 (88 + length thread) e (omega (arith, e))),
        ut,
        get_or_err_found bytes (88 + length thread) (88 + length thread + length id)
            (invalid "v2 checkpoint id bytes are truncated")
            (ap (λ l. slice l (88 + length thread) (88 + length thread + length id))
                (sym (append_assoc head thread (id ++ parent)))
              ∙ slice_middle (head ++ thread) id parent (88 + length thread)
                  (88 + length thread + length id) (omega (arith, e, length-append {0} head thread))
                  (omega (arith, e, length-append {0} head thread))),
        uc,
        get_or_err_found bytes (88 + length thread + length id)
            (88 + length thread + length id + length parent)
            (invalid "v2 checkpoint parent bytes are truncated")
            (ap
                (λ l.
                  slice l (88 + length thread + length id)
                    (88 + length thread + length id + length parent))
                (sym (
                  append_assoc head (thread ++ id) parent
                  ∙ ap (λ l. head ++ l) (append_assoc thread id parent)))
              ∙ slice_tail (head ++ (thread ++ id)) parent (88 + length thread + length id)
                  (88 + length thread + length id + length parent)
                  (omega
                    (arith, e, length-append {0} head (thread ++ id), length-append {0} thread id))
                  (omega (
                    arith,
                    e,
                    length-append {0} head (thread ++ id),
                    length-append {0} thread id,
                  ))),
        up,
      )
      refl

pub reference_found :
    (version version_count : ℕ)
    → version < version_count
    → version_count ≤ u32_max
    → validate_version_reference version version_count ≡ ok tt
unfolding validate_version_reference validate_encodable_version_reference
reference_found version version_count lt small = ground arith

pub references_found :
    (version : Option ℕ) (version_count : ℕ)
    → ((v : ℕ) → version ≡ some v → v < version_count)
    → version_count ≤ u32_max
    → check_some version (λ v. validate_version_reference v version_count) ≡ ok tt
references_found none version_count lt small = refl
references_found (some v) version_count lt small = reference_found v version_count (lt v refl) small

-- What the checks of the encoder say of the lengths.
pub fields_inv :
    (checkpoint : CheckpointRecord)
    → validate_fields checkpoint ≡ ok tt
    → (0 < length checkpoint.thread_id)
      × (length checkpoint.thread_id ≤ 4096)
      × (0 < length checkpoint.checkpoint_id)
      × (length checkpoint.checkpoint_id ≤ 4096)
      × (length (parent_or_empty checkpoint.parent_checkpoint_id) ≤ 4096)
      × (28 ≤ checkpoint.state.logical_len)
      × ((if is_empty (parent_or_empty checkpoint.parent_checkpoint_id)
            then none
            else some (parent_or_empty checkpoint.parent_checkpoint_id))
          ≡ checkpoint.parent_checkpoint_id)
unfolding validate_fields
fields_inv checkpoint h =
    let (thread, h1) = then_inv _ h in
    let (id, h2) = then_inv _ h1 in
    let (parent, h3) = then_inv _ h2 in
    let (v1, h4) = then_inv (validate_encodable_version_reference checkpoint.identity_version) h3 in
    let (v2, h5) =
      then_inv (check_some checkpoint.messages_version validate_encodable_version_reference) h4 in
    let (v3, h6) =
      then_inv (check_some checkpoint.result_version validate_encodable_version_reference) h5 in
    let (t0, t1) = identifier_inv _ _ thread in
    let (i0, i1) = identifier_inv _ _ id in
    let (p1, p2) = parent_inv checkpoint.parent_checkpoint_id parent in
    (t0, t1, i0, i1, p1, ltb→le _ 28 (reject_inv _ _ h6), p2)
  where
    parent_inv :
        (parent : Option (List ℕ))
        → check_some parent (λ p. validate_identifier p "v2 checkpoint parent id is invalid")
          ≡ ok tt
        → (length (parent_or_empty parent) ≤ 4096)
          × ((if is_empty (parent_or_empty parent) then none else some (parent_or_empty parent))
              ≡ parent)
    parent_inv none k = (omega arith, refl)
    parent_inv (some p) k = let (p0, p1) = identifier_inv p _ k in (p1, nonempty p p0)
      where
        nonempty : (p : List ℕ) → 0 < length p → (if is_empty p then none else some p) ≡ some p
        nonempty [] lt = absurd (omega arith)
        nonempty (b ∷ p) lt = refl
