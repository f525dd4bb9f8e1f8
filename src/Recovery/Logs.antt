-- ===== src/Recovery/Logs.antt =====
-- A log of frames that were written one after the other is recovered to the state that their commits
-- lead to, whatever end of the written bytes follows.
use tulya_checkpoint_store.Prelude.{
  ℕ, zero, suc, ◌+◌, ◌≤◌, ◌<◌, ◌≡◌, ◌∙◌, refl, ap, sym, arith, List, [], ◌∷◌, ◌++◌, append_assoc,
  Bool, true, false, lt→ltb, le→ltb, length, length-append, drop, drop_front, replicate, Result, ok,
  ◌>>=◌, map_err, u64_max,
}
use tulya_checkpoint_store.Format.Records.{Sha256}
use tulya_checkpoint_store.Publication.Records.{Utf8}
use tulya_checkpoint_store.Apply.State.{CommittedState}
use tulya_checkpoint_store.Recovery.Scan.{
  RecoveryError, RecoveryFault, raised, RecoveryStop, end_of_bytes, zero_reserve, torn_final_commit,
  RecoveredHotWal, recovered, Turn, stopped, advanced, recovery_turn, recovery_loop,
  recover_hot_wal,
}
use tulya_checkpoint_store.Recovery.Turns.{
  empty, written, nothing, reserve, torn_frame, Log, Ends, end_turn, frame_turn,
  length-encode_hot_frame,
}

module _ ⦃sha : Sha256⦄ ⦃text : Utf8⦄ where
  -- The loop behind a turn, and behind its test.
  abbrev after_turn :
      ℕ
      → List ℕ
      → ℕ
      → ℕ
      → CommittedState
      → Result RecoveryError Turn
      → Result RecoveryFault RecoveredHotWal
  after_turn fuel bytes cursor count state r = map_err raised r >>= λ turn. elim turn [
    | stopped stop ↦ ok (recovered state cursor count stop)
    | advanced cursor' count' state' ↦ recovery_loop fuel bytes cursor' count' state'
  ]

  abbrev after_test :
      ℕ → List ℕ → ℕ → ℕ → CommittedState → Bool → Result RecoveryFault RecoveredHotWal
  after_test fuel bytes cursor count state b = elim b [
    | false ↦ ok (recovered state cursor count end_of_bytes)
    | true ↦
        after_turn fuel bytes cursor count state
          (recovery_turn (drop cursor bytes) cursor count state)
  ]

  loop_end :
      (fuel : ℕ) (bytes : List ℕ) (cursor count : ℕ) (state : CommittedState)
      → length bytes ≤ cursor
      → recovery_loop (suc fuel) bytes cursor count state
        ≡ ok (recovered state cursor count end_of_bytes)
  unfolding recovery_loop
  loop_end fuel bytes cursor count state h =
      ap (after_test fuel bytes cursor count state) (le→ltb cursor (length bytes) h)

  loop_turn :
      (fuel : ℕ) (bytes front tail : List ℕ) (cursor count : ℕ) (state : CommittedState)
      {turn : Turn}
      → bytes ≡ front ++ tail
      → length front ≡ cursor
      → 0 < length tail
      → recovery_turn tail cursor count state ≡ ok turn
      → recovery_loop (suc fuel) bytes cursor count state
        ≡ after_turn fuel bytes cursor count state (ok turn)
  unfolding recovery_loop
  loop_turn fuel bytes front tail cursor count state is at long turns =
      ap (after_test fuel bytes cursor count state) (
        lt→ltb cursor (length bytes)
          (omega (arith, ap length is, at, long, length-append {0} front tail)))
      ∙ ap (λ l. after_turn fuel bytes cursor count state (recovery_turn l cursor count state))
          (ap (drop cursor) is ∙ drop_front front tail cursor at)
      ∙ ap (after_turn fuel bytes cursor count state) turns

  end_loop :
      (fuel : ℕ) (bytes front tail : List ℕ) (cursor count : ℕ) (state : CommittedState)
      (stop : RecoveryStop)
      → Ends tail stop
      → bytes ≡ front ++ tail
      → length front ≡ cursor
      → length tail < fuel
      → recovery_loop fuel bytes cursor count state ≡ ok (recovered state cursor count stop)
  end_loop zero bytes front tail cursor count state stop ends is at h = absurd (omega arith)
  end_loop (suc fuel) bytes front tail cursor count state stop nothing is at h =
      loop_end fuel bytes cursor count state
        (omega (arith, ap length is, at, length-append {0} front []))
  end_loop (suc fuel) bytes front tail cursor count state stop (reserve zeros) is at h =
      loop_turn fuel bytes front (0 ∷ replicate zeros 0) cursor count state is at (omega arith) (
        end_turn (0 ∷ replicate zeros 0) cursor count state zero_reserve (reserve zeros)
          (omega arith))
  end_loop (suc fuel) bytes front tail cursor count state stop
        (torn_frame t long begins bare probed) is at h =
      loop_turn fuel bytes front tail cursor count state is at long (
        end_turn tail cursor count state torn_final_commit (torn_frame tail long begins bare probed)
          long)

  log_loop :
      (fuel : ℕ) (bytes front frames tail : List ℕ) (cursor count k : ℕ)
      (state last : CommittedState) (stop : RecoveryStop)
      → Log state frames k last
      → Ends tail stop
      → bytes ≡ front ++ (frames ++ tail)
      → length front ≡ cursor
      → length bytes ≤ u64_max
      → count ≤ cursor
      → length frames + length tail < fuel
      → recovery_loop fuel bytes cursor count state
        ≡ ok (recovered last (cursor + length frames) (count + k) stop)
  log_loop zero bytes front frames tail cursor count k state last stop log ends is at small few h =
      absurd (omega arith)
  log_loop (suc fuel) bytes front frames tail cursor count k state last stop (empty s) ends is at
        small few h =
      end_loop (suc fuel) bytes front tail cursor count state stop ends is at (omega arith)
      ∙ ap (λ c. ok (recovered state c count stop)) (let e : cursor ≡ cursor + 0 = omega arith in e)
      ∙ ap (λ c. ok (recovered state (cursor + 0) c stop))
          (let e : count ≡ count + 0 = omega arith in e)
  log_loop (suc fuel) bytes front frames tail cursor count k state last stop
        (written s commit frame ordinal state' rest n final encoded applies log) ends is at small
        few h =
      let whole : bytes ≡ front ++ (frame ++ (rest ++ tail)) =
        is ∙ ap (λ l. front ++ l) (append_assoc frame rest tail) in
      let moved : bytes ≡ (front ++ frame) ++ (rest ++ tail) =
        whole ∙ sym (append_assoc front frame (rest ++ tail)) in
      let long = length-encode_hot_frame commit encoded in
      let total : length bytes ≡ cursor + length frame + length (rest ++ tail) = omega (
        arith,
        ap length whole,
        at,
        length-append {0} front (frame ++ (rest ++ tail)),
        length-append {0} frame (rest ++ tail),
      ) in
      loop_turn fuel bytes front (frame ++ (rest ++ tail)) cursor count state whole at
        (omega (arith, long, length-append {0} frame (rest ++ tail)))
        (frame_turn commit frame (rest ++ tail) cursor count ordinal state state' encoded applies
          (omega (arith, total)) (omega (arith, total, long)))
      ∙ (log_loop fuel bytes (front ++ frame) rest tail (cursor + length frame) (count + 1) n state'
            last stop log ends moved (omega (arith, at, length-append {0} front frame)) small
            (omega (arith, long)) (omega (arith, h, long, length-append {0} frame rest))
          ∙ ap (λ c. ok (recovered last c (count + 1 + n) stop))
              (omega (arith, length-append {0} frame rest))
          ∙ ap (λ c. ok (recovered last (cursor + length (frame ++ rest)) c stop)) (omega arith))

  -- The frames of commits that were applied one after the other, and behind them nothing, the zeros
  -- of the reserve or a frame that is torn, of 64-bit length together, are recovered as the state
  -- that the commits lead to, their length, their count and the stop at what follows.
  pub recover_hot_wal-Log :
      (state last : CommittedState) (frames tail : List ℕ) (count : ℕ) (stop : RecoveryStop)
      → Log state frames count last
      → Ends tail stop
      → length (frames ++ tail) ≤ u64_max
      → recover_hot_wal (frames ++ tail) state
        ≡ ok (record {
          state = last;
          logical_tail = length frames;
          commit_count = count;
          stop = stop;
        })
  unfolding recover_hot_wal
  recover_hot_wal-Log state last frames tail count stop log ends small =
      log_loop (suc (length (frames ++ tail))) (frames ++ tail) [] frames tail 0 0 count state last
        stop log ends refl refl small (omega arith) (omega (arith, length-append {0} frames tail))
      ∙ ap (λ c. ok (recovered last c (0 + count) stop)) (omega arith)
      ∙ ap (λ c. ok (recovered last (length frames) c stop)) (omega arith)
