-- ===== src/HotWal/FrameWrites.antt =====
-- What the probe reports of the frames that the encoder writes.
use tulya_checkpoint_store.Prelude.{
  ℕ, ◌+◌, ◌≤◌, ◌<◌, ◌≡◌, ◌∙◌, refl, ap, List, ◌∷◌, ◌++◌, none, some, zero, suc, arith, length,
  length-append, append_assoc, take, slice, slice-append, take-append_left, take_front, false,
  ==_iff, true_of_not, le→ltb, le→leb, replicate, ok, err, bind_inv, then_inv, checked_add_inv,
  try_from_inv, ok_of_then, reject_inv, u32_max, u64_max, map_err,
}
use tulya_checkpoint_store.Format.Bytes.{from_le_bytes}
use tulya_checkpoint_store.Format.Records.{Sha256}
use tulya_checkpoint_store.Format.Codec.{same_bytes}
use tulya_checkpoint_store.Format.Reads.{slice_middle}
use tulya_checkpoint_store.Publication.Records.{Utf8}
use tulya_checkpoint_store.Wal.Bodies.{map_err_inv}
use tulya_checkpoint_store.Wal.Sections.{same_bytes_refl}
use tulya_checkpoint_store.Commit.Records.{DecodedCommit}
use tulya_checkpoint_store.Commit.Codec.{decode_commit}
use tulya_checkpoint_store.Commit.Fields.{decode_commit-Framed}
use tulya_checkpoint_store.HotWal.Frame.{
  commit_error, invalid_frame, complete, commit_magic, get_range, read_u32, footer, check_footer,
  probe_footer, probe_hot_frame,
}
use tulya_checkpoint_store.HotWal.FrameEncode.{encode_hot_frame}

module _ ⦃sha : Sha256⦄ ⦃text : Utf8⦄ where
  -- What the encoder returns, taken apart.
  pub encode_hot_frame_inv :
      (commit : List ℕ) {frame : List ℕ}
      → encode_hot_frame commit ≡ ok frame
      → (decoded : DecodedCommit) × (decode_commit commit ≡ ok decoded)
        × (length commit + 40 ≤ u32_max)
        × (length frame ≡ length commit + 40)
        × (frame ≡ commit ++ footer (length commit + 40) decoded.commit_digest)
  unfolding encode_hot_frame footer
  encode_hot_frame_inv commit {frame} h =
      let (decoded, h1, r1) = bind_inv {m = map_err commit_error (decode_commit commit)} h in
      let (u2, r2) = checked_add_inv u64_max (length commit) 40 _ _ r1 in
      let (small, r3) = try_from_inv u32_max (length commit + 40) _ _ r2 in
      let (size, r4) = then_inv _ r3 in
      let is = ok_of_then _ r3 in
      (
        decoded,
        map_err_inv commit_error _ h1,
        small,
        ap length is ∙ (==_iff _ (length commit + 40)).0 (true_of_not (reject_inv _ _ size)),
        is,
      )

pub get_range_found :
    (bytes : List ℕ) (start end : ℕ) (message : _) {found : List ℕ}
    → slice bytes start end ≡ some found
    → get_range bytes start end message ≡ ok found
get_range_found bytes start end message h =
    ap (λ s. elim s [ none ↦ err (invalid_frame message) | some f ↦ ok f ]) h

probe_footer_complete :
    (commit tail digest : List ℕ)
    → slice commit 56 88 ≡ some digest
    → length commit + 40 ≤ u32_max
    → length (footer (length commit + 40) digest) ≡ 40
    → probe_footer (commit ++ (footer (length commit + 40) digest ++ tail)) (length commit)
      ≡ ok (complete (length commit) (length commit + 40))
unfolding probe_footer check_footer
probe_footer_complete commit tail digest digested small wide =
    let end = footer (length commit + 40) digest in
    let bytes = commit ++ (end ++ tail) in
    let total : length bytes ≡ length commit + 40 + length tail =
      omega (arith, wide, length-append {0} commit (end ++ tail), length-append {0} end tail) in
    rw
      (
        le→leb (length commit + 40) u64_max (omega arith),
        le→ltb (length bytes) (length commit + 40) (omega (arith, total)),
        le→leb (length commit + 40) u32_max small,
        get_range_found bytes 56 88 "v2 hot commit digest field is truncated"
            (slice-append commit (end ++ tail) 56 88 digested),
        get_range_found bytes (length commit) (length commit + 40)
            "v2 hot footer range is truncated"
            (slice_middle commit end tail (length commit) (length commit + 40) refl
              (omega (arith, wide))),
        same_bytes_refl end,
      )
      refl

read_length :
    (commit tail part : List ℕ)
    → slice commit 4 8 ≡ some part
    → from_le_bytes part ≡ length commit
    → read_u32 (commit ++ tail) 4 ≡ ok (length commit)
unfolding read_u32
read_length commit tail part sliced is =
    rw
      (get_range_found (commit ++ tail) 4 8 "v2 hot u32 field is truncated"
        (slice-append commit tail 4 8 sliced))
      (ap ok is)

module _ ⦃sha : Sha256⦄ ⦃text : Utf8⦄ where
  -- A frame that is encoded, with any bytes behind it, is reported complete, with the length of its
  -- commit and its own; its first bytes are the commit.
  pub probe_hot_frame-encode_hot_frame :
      (commit tail : List ℕ) {frame : List ℕ}
      → encode_hot_frame commit ≡ ok frame
      → (probe_hot_frame (frame ++ tail) ≡ ok (complete (length commit) (length frame)))
        × (take (length commit) (frame ++ tail) ≡ commit)
  unfolding probe_hot_frame
  probe_hot_frame-encode_hot_frame commit tail {frame} h =
      let (decoded, decodes, small, size, is) = encode_hot_frame_inv commit h in
      let (long, magic, field, digested) = decode_commit-Framed commit decodes in
      let (part, sliced, value) = field in
      let end = footer (length commit + 40) decoded.commit_digest in
      let bytes = commit ++ (end ++ tail) in
      let whole : frame ++ tail ≡ bytes = ap (λ f. f ++ tail) is ∙ append_assoc commit end tail in
      let wide : length end ≡ 40 =
        omega (arith, size, ap length is, length-append {0} commit end) in
      let total = length-append {0} commit (end ++ tail) in
      let start : take 4 bytes ≡ commit_magic =
        take-append_left 4 commit (end ++ tail) (omega arith) ∙ magic in
      (
        rw
            (
              whole,
              size,
              le→ltb (length bytes) 4 (omega (arith, total)),
              start,
              le→ltb (length bytes) 8 (omega (arith, total)),
              read_length commit (end ++ tail) part sliced value,
              le→ltb (length commit) 88 long,
            )
            (probe_footer_complete commit tail decoded.commit_digest digested small wide),
        ap (take (length commit)) whole ∙ take_front commit (end ++ tail) (length commit) refl,
      )

-- Bytes of another magic.
other_magic :
    (bytes : List ℕ)
    → 4 ≤ length bytes
    → same_bytes (take 4 bytes) commit_magic ≡ false
    → probe_hot_frame bytes ≡ err (invalid_frame "v2 hot frame commit magic mismatch")
unfolding probe_hot_frame
other_magic bytes long other = rw (le→ltb (length bytes) 4 long, other) refl

-- A write of one to three bytes of the magic of a frame, with zeros behind it to four bytes or more,
-- is not reported torn: the probe returns its error for another magic.
pub probe_hot_frame_short_write :
    (written padding : ℕ)
    → 0 < written
    → written < 4
    → 4 ≤ written + padding
    → probe_hot_frame (take written commit_magic ++ replicate padding 0)
      ≡ err (invalid_frame "v2 hot frame commit magic mismatch")
probe_hot_frame_short_write zero padding some_ few long = absurd (omega arith)
probe_hot_frame_short_write (suc zero) (suc (suc (suc z))) some_ few long =
    other_magic (b'T' ∷ 0 ∷ 0 ∷ 0 ∷ replicate z 0) (omega arith) refl
probe_hot_frame_short_write (suc (suc zero)) (suc (suc z)) some_ few long =
    other_magic (b'T' ∷ b'2' ∷ 0 ∷ 0 ∷ replicate z 0) (omega arith) refl
probe_hot_frame_short_write (suc (suc (suc zero))) (suc z) some_ few long =
    other_magic (b'T' ∷ b'2' ∷ b'C' ∷ 0 ∷ replicate z 0) (omega arith) refl
probe_hot_frame_short_write (suc (suc (suc (suc n)))) padding some_ few long = absurd (omega arith)
probe_hot_frame_short_write (suc zero) zero some_ few long = absurd (omega arith)
probe_hot_frame_short_write (suc zero) (suc zero) some_ few long = absurd (omega arith)
probe_hot_frame_short_write (suc zero) (suc (suc zero)) some_ few long = absurd (omega arith)
probe_hot_frame_short_write (suc (suc zero)) zero some_ few long = absurd (omega arith)
probe_hot_frame_short_write (suc (suc zero)) (suc zero) some_ few long = absurd (omega arith)
probe_hot_frame_short_write (suc (suc (suc zero))) zero some_ few long = absurd (omega arith)
