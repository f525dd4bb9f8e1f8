-- ===== src/HotWal/Frame.antt =====
-- `probe_v2_hot_frame` of hot_frame_v2.rs: whether the bytes of a preinitialised log begin with a
-- complete frame, a commit with its completion footer, or with a torn one.
use tulya_checkpoint_store.Prelude.{
  ℕ, zero, suc, List, [], ◌∷◌, ◌++◌, String, none, some, Bool, not, ◌&&◌, ◌||◌, ltb, ◌==◌, min,
  length, take, drop, slice, if◌then◌else◌, Result, ok, err, ◌>>=◌, checked_add, try_from, u32_max,
  u64_max,
}
use tulya_checkpoint_store.Format.Bytes.{to_le_bytes, from_le_bytes}
use tulya_checkpoint_store.Format.Codec.{same_bytes}
use tulya_checkpoint_store.Commit.Records.{CommitError}
use tulya_checkpoint_store.HotWal.Authority.{all_zero}

-- V2_COMMIT_MAGIC and V2_HOT_FOOTER_MAGIC
abbrev pub commit_magic : List ℕ
commit_magic = b'T' ∷ b'2' ∷ b'C' ∷ b'2' ∷ []

abbrev pub footer_magic : List ℕ
footer_magic = b'T' ∷ b'2' ∷ b'E' ∷ b'2' ∷ []

-- V2_COMMIT_HEADER_SIZE, V2_COMMIT_DIGEST_OFFSET, V2_COMMIT_DIGEST_END, V2_HOT_FOOTER_SIZE
abbrev pub commit_header_size : ℕ
commit_header_size = 88

abbrev pub digest_offset : ℕ
digest_offset = 56

abbrev pub digest_end : ℕ
digest_end = 88

abbrev pub footer_size : ℕ
footer_size = 40

-- `V2HotFrameError`
pub data HotFrameError : Type 0 where
  commit_error : CommitError → HotFrameError
  invalid_frame : String → HotFrameError
  frame_overflow : String → HotFrameError

-- `V2HotFrameProbe`
pub data HotFrameProbe : Type 0 where
  complete : (commit_len frame_len : ℕ) → HotFrameProbe
  torn : HotFrameProbe

-- `magic.starts_with(bytes)`
abbrev pub starts_with : List ℕ → List ℕ → Bool
starts_with magic bytes = same_bytes (take (length bytes) magic) bytes

-- `bytes.get(start..end).ok_or(Invalid(message))?`
abbrev pub get_range : List ℕ → ℕ → ℕ → String → Result HotFrameError (List ℕ)
get_range bytes start end message = elim (slice bytes start end) [
  | none ↦ err (invalid_frame message)
  | some found ↦ ok found
]

-- `read_u32`
unfoldable pub read_u32 : List ℕ → ℕ → Result HotFrameError ℕ
read_u32 bytes offset = do
  end ← checked_add u64_max offset 4 (frame_overflow "v2 hot u32 range exceeds usize")
  encoded ← get_range bytes offset end "v2 hot u32 field is truncated"
  ok (from_le_bytes encoded)

-- `(0..=n).rev().any(…)` of `is_zero_padded_prefix`
unfoldable pub padded_at : ℕ → List ℕ → List ℕ → Bool
padded_at zero actual expected = all_zero actual
padded_at (suc written) actual expected =
    (same_bytes (take (suc written) actual) (take (suc written) expected)
      && all_zero (drop (suc written) actual))
    || padded_at written actual expected

-- `is_zero_padded_prefix`
unfoldable pub is_zero_padded_prefix : List ℕ → List ℕ → Bool
is_zero_padded_prefix actual expected =
    (length actual == length expected) && padded_at (length actual) actual expected

-- `expected_footer`
unfoldable pub footer : ℕ → List ℕ → List ℕ
footer frame_len commit_digest = footer_magic ++ (to_le_bytes 4 frame_len ++ commit_digest)

-- The comparison of the footers.
unfoldable pub check_footer : ℕ → ℕ → List ℕ → List ℕ → Result HotFrameError HotFrameProbe
check_footer commit_len frame_len actual expected =
    if same_bytes actual expected
    then ok (complete commit_len frame_len)
    else if is_zero_padded_prefix actual expected
    then ok torn
    else err (invalid_frame "v2 hot completion footer mismatch")

-- What follows the length of the commit.
unfoldable pub probe_footer : List ℕ → ℕ → Result HotFrameError HotFrameProbe
probe_footer bytes commit_len = do
  frame_len ←
      checked_add u64_max commit_len footer_size
        (frame_overflow "v2 hot frame length exceeds usize")
  if ltb (length bytes) frame_len then ok torn else (do
    frame_len_u32 ← try_from u32_max frame_len (frame_overflow "v2 hot frame length exceeds u32")
    commit_digest ←
        get_range bytes digest_offset digest_end "v2 hot commit digest field is truncated"
    actual ← get_range bytes commit_len frame_len "v2 hot footer range is truncated"
    check_footer commit_len frame_len actual (footer frame_len_u32 commit_digest))

-- The arm of a commit that is shorter than its header.
unfoldable pub probe_short : List ℕ → Result HotFrameError HotFrameProbe
probe_short bytes = elim (slice bytes 8 (min (length bytes) commit_header_size)) [
  | none ↦ err (invalid_frame "v2 hot commit length is shorter than its header")
  | some tail ↦
      (if all_zero tail
        then ok torn
        else err (invalid_frame "v2 hot commit length is shorter than its header"))
]

-- `probe_v2_hot_frame`
unfoldable pub probe_hot_frame : List ℕ → Result HotFrameError HotFrameProbe
probe_hot_frame bytes =
    if ltb (length bytes) 4
    then (if starts_with commit_magic bytes
        then ok torn
        else err (invalid_frame "v2 hot frame magic is truncated"))
    else if not (same_bytes (take 4 bytes) commit_magic)
    then err (invalid_frame "v2 hot frame commit magic mismatch")
    else if ltb (length bytes) 8
    then ok torn
    else (do
      commit_len ← read_u32 bytes 4
      if ltb commit_len commit_header_size
          then probe_short bytes
          else probe_footer bytes commit_len)
