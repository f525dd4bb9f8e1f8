-- ===== src/Recovery/Crash.antt =====
-- A crash in the middle of a write: the log ends with a frame that was written in part.
use tulya_checkpoint_store.Prelude.{
  ℕ, ◌≤◌, ◌<◌, ◌≡◌, ◌≢◌, inl, inr, arith, List, ◌++◌, length, take, ok, u64_max,
}
use tulya_checkpoint_store.Format.Records.{Sha256}
use tulya_checkpoint_store.Publication.Records.{Utf8}
use tulya_checkpoint_store.HotWal.FrameEncode.{encode_hot_frame}
use tulya_checkpoint_store.HotWal.TornFrames.{
  cut_frame, length-cut_frame, probe_hot_frame-cut_frame,
}
use tulya_checkpoint_store.Apply.State.{CommittedState}
use tulya_checkpoint_store.Recovery.Scan.{torn_final_commit, recover_hot_wal}
use tulya_checkpoint_store.Recovery.Turns.{Log, Ends, torn_frame, magic_first}
use tulya_checkpoint_store.Recovery.Logs.{recover_hot_wal-Log}

module _ ⦃sha : Sha256⦄ ⦃text : Utf8⦄ where
  cut_frame-Ends :
      (commit : List ℕ) (w z : ℕ) {frame : List ℕ}
      → encode_hot_frame commit ≡ ok frame
      → 4 ≤ w
      → w < length frame
      → take (length frame) (cut_frame w z frame) ≢ frame
      → Ends (cut_frame w z frame) torn_final_commit
  cut_frame-Ends commit w z {frame} encoded some_ cut partial =
      let (magic, reports) = probe_hot_frame-cut_frame commit w z encoded some_ cut in
      let (begins, bare) = magic_first (cut_frame w z frame) magic in
      elim reports [
        | inl reported ↦
            torn_frame (cut_frame w z frame)
              (omega (arith, length-cut_frame w z frame (omega arith))) begins bare reported
        | inr whole ↦ absurd (partial whole)
      ]

  -- Behind the frames of commits that were applied one after the other, a frame that is encoded was
  -- being written: four bytes or more of it are there, but not all, with zeros behind them that do
  -- not complete it, and the whole log has a 64-bit length. Then recovery returns the state that
  -- the earlier commits lead to, their length and count, and reports the last frame torn.
  pub recover_hot_wal-cut_frame :
      (state last : CommittedState) (frames : List ℕ) (count : ℕ) (commit : List ℕ) (w z : ℕ)
      {frame : List ℕ}
      → Log state frames count last
      → encode_hot_frame commit ≡ ok frame
      → 4 ≤ w
      → w < length frame
      → take (length frame) (cut_frame w z frame) ≢ frame
      → length (frames ++ cut_frame w z frame) ≤ u64_max
      → recover_hot_wal (frames ++ cut_frame w z frame) state
        ≡ ok (record {
          state = last;
          logical_tail = length frames;
          commit_count = count;
          stop = torn_final_commit;
        })
  recover_hot_wal-cut_frame state last frames count commit w z {frame} log encoded some_ cut partial
        small =
      recover_hot_wal-Log state last frames (cut_frame w z frame) count torn_final_commit log
        (cut_frame-Ends commit w z encoded some_ cut partial) small
