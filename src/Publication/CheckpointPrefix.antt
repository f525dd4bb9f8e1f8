-- ===== src/Publication/CheckpointPrefix.antt =====
-- The prefix of an encoded checkpoint, and how its fields are read.
use tulya_checkpoint_store.Prelude.{
  ℕ, ◌+◌, ◌≤◌, ◌≡◌, ◌∙◌, refl, ap, List, ◌++◌, some, arith, length, length-append, take, drop,
  take-append_left, take_all, drop-append_left, drop_all, ok, u32_max,
}
use tulya_checkpoint_store.Format.Bytes.{to_le_bytes, from_le_bytes}
use tulya_checkpoint_store.Format.Fields.{u32_back}
use tulya_checkpoint_store.Format.Reads.{
  read_le, read_le_head, get_or_err, get_or_err_found, slice_head,
}
use tulya_checkpoint_store.Publication.Records.{PublicationError, CheckpointRecord}
use tulya_checkpoint_store.Publication.Checks.{encode_optional_version}
use tulya_checkpoint_store.Publication.Checkpoint.{
  checkpoint_magic, EncodingGeometry, checkpoint_prefix,
}

pub length-checkpoint_prefix :
    (geometry : EncodingGeometry) (checkpoint : CheckpointRecord)
    → length checkpoint.state.commitment ≡ 32
    → length (checkpoint_prefix geometry checkpoint) ≡ 88
unfolding checkpoint_prefix to_le_bytes
length-checkpoint_prefix geometry checkpoint e =
    omega
      (arith, e, length-append {0} checkpoint.state.commitment (to_le_bytes 4 0 ++ to_le_bytes 4 0))

-- What the prefix holds.
module _ (geometry : EncodingGeometry) (checkpoint : CheckpointRecord)
    (e : length checkpoint.state.commitment ≡ 32) where
  abbrev pub prefix : List ℕ
  prefix = checkpoint_prefix geometry checkpoint

  pub read_prefix :
      (tail : List ℕ) (n offset : ℕ) (too_far missing : PublicationError)
      → offset + n ≤ 88
      → read_le n (prefix ++ tail) offset too_far missing
        ≡ ok (from_le_bytes (take n (drop offset prefix)))
  read_prefix tail n offset too_far missing h =
      let f = length-checkpoint_prefix geometry checkpoint e in
      read_le_head prefix tail n offset too_far missing (omega (arith, f)) (omega (arith, f))

  pub read_commitment :
      (tail : List ℕ) (missing : PublicationError)
      → get_or_err (prefix ++ tail) 48 80 missing ≡ ok checkpoint.state.commitment
  unfolding checkpoint_prefix to_le_bytes
  read_commitment tail missing =
      let f = length-checkpoint_prefix geometry checkpoint e in
      get_or_err_found (prefix ++ tail) 48 80 missing (
        slice_head prefix tail 48 32 (omega (arith, f))
        ∙ ap some (
            take-append_left 32 checkpoint.state.commitment (to_le_bytes 4 0 ++ to_le_bytes 4 0)
              (omega (arith, e))
            ∙ take_all 32 checkpoint.state.commitment (omega (arith, e))))

  -- The flags and the reserved field.
  pub behind_commitment : drop 80 prefix ≡ to_le_bytes 4 0 ++ to_le_bytes 4 0
  unfolding checkpoint_prefix to_le_bytes
  behind_commitment =
      drop-append_left 32 checkpoint.state.commitment (to_le_bytes 4 0 ++ to_le_bytes 4 0)
        (omega (arith, e))
      ∙ ap (λ l. l ++ (to_le_bytes 4 0 ++ to_le_bytes 4 0))
          (drop_all 32 checkpoint.state.commitment (omega (arith, e)))

pub u32_field :
    (field : List ℕ) (n : ℕ) → n ≤ u32_max → field ≡ to_le_bytes 4 n → from_le_bytes field ≡ n
u32_field field n fits h = ap from_le_bytes h ∙ u32_back n fits

-- The fields of the prefix, in their order.
module _ (geometry : EncodingGeometry) (checkpoint : CheckpointRecord) where
  abbrev pub field_at : ℕ → List ℕ
  field_at offset = take 4 (drop offset (checkpoint_prefix geometry checkpoint))

  pub prefix_fields :
      (field_at 4 ≡ to_le_bytes 4 geometry.record_len)
      × (field_at 8 ≡ to_le_bytes 4 checkpoint.checkpoint_no)
      × (field_at 12 ≡ to_le_bytes 4 checkpoint.identity_version)
      × (field_at 16 ≡ to_le_bytes 4 (encode_optional_version checkpoint.messages_version))
      × (field_at 20 ≡ to_le_bytes 4 (encode_optional_version checkpoint.result_version))
      × (field_at 24 ≡ to_le_bytes 4 geometry.thread_len)
      × (field_at 28 ≡ to_le_bytes 4 geometry.checkpoint_len)
      × (field_at 32 ≡ to_le_bytes 4 geometry.parent_len)
      × (field_at 36 ≡ to_le_bytes 4 1)
      × (take 8 (drop 40 (checkpoint_prefix geometry checkpoint))
          ≡ to_le_bytes 8 checkpoint.state.logical_len)
  unfolding checkpoint_prefix to_le_bytes
  prefix_fields = (refl, refl, refl, refl, refl, refl, refl, refl, refl, refl)

  pub prefix_magic :
      (tail : List ℕ) → take 4 (checkpoint_prefix geometry checkpoint ++ tail) ≡ checkpoint_magic
  unfolding checkpoint_prefix
  prefix_magic tail = refl
