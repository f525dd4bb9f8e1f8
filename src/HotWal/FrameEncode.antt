-- ===== src/HotWal/FrameEncode.antt =====
-- `encode_v2_hot_frame` of hot_frame_v2.rs.
use tulya_checkpoint_store.Prelude.{
  ℕ, List, ◌++◌, not, ◌==◌, length, Result, ok, ◌>>=◌, ◌>>◌, reject, map_err, checked_add, try_from,
  u32_max, u64_max,
}
use tulya_checkpoint_store.Format.Bytes.{to_le_bytes}
use tulya_checkpoint_store.Format.Records.{Sha256}
use tulya_checkpoint_store.Publication.Records.{Utf8}
use tulya_checkpoint_store.Commit.Codec.{decode_commit}
use tulya_checkpoint_store.HotWal.Frame.{
  HotFrameError, commit_error, invalid_frame, frame_overflow, footer_magic, footer_size,
}

-- `encode_v2_hot_frame`
unfoldable pub encode_hot_frame :
    ⦃sha : Sha256⦄ ⦃text : Utf8⦄ → List ℕ → Result HotFrameError (List ℕ)
encode_hot_frame commit = do
  decoded ← map_err commit_error (decode_commit commit)
  frame_len ←
      checked_add u64_max (length commit) footer_size
        (frame_overflow "v2 hot frame length exceeds usize")
  frame_len_u32 ← try_from u32_max frame_len (frame_overflow "v2 hot frame length exceeds u32")
  let output = commit ++ (footer_magic ++ (to_le_bytes 4 frame_len_u32 ++ decoded.commit_digest))
  reject (not (length output == frame_len))
      (invalid_frame "v2 hot frame encoder produced an unexpected length")
  ok output
