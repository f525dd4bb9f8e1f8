-- ===== src/Recovery/Turns.antt =====
-- One turn of the recovery: at the frame of a commit that is applied, and at the end of a log.
use tulya_checkpoint_store.Prelude.{
  ℕ, zero, suc, ◌+◌, ◌≤◌, ◌<◌, ◌≡◌, ◌∙◌, refl, ap, arith, List, [], ◌∷◌, ◌++◌, true, false, ltb,
  lt→ltb, le→leb, length, length-append, take, slice-eq, replicate, ◌&&◌, min, some, ok, u64_max,
}
use tulya_checkpoint_store.Format.Records.{Sha256}
use tulya_checkpoint_store.Format.Codec.{same_bytes}
use tulya_checkpoint_store.Format.Reads.{get_or_err, get_or_err_found}
use tulya_checkpoint_store.Publication.Records.{Utf8}
use tulya_checkpoint_store.HotWal.Authority.{all_zero}
use tulya_checkpoint_store.HotWal.Frame.{torn, commit_magic, probe_hot_frame}
use tulya_checkpoint_store.HotWal.FrameLaws.{probe_hot_frame-complete}
use tulya_checkpoint_store.HotWal.FrameEncode.{encode_hot_frame}
use tulya_checkpoint_store.HotWal.FrameWrites.{probe_hot_frame-encode_hot_frame}
use tulya_checkpoint_store.Apply.State.{applied, CommittedState}
use tulya_checkpoint_store.Apply.Commits.{apply_commit}
use tulya_checkpoint_store.Recovery.Scan.{
  invalid, RecoveryStop, end_of_bytes, zero_reserve, torn_final_commit, stopped, advanced,
  structural_magic, starts_with_zero_reserve, applied_state, take_frame, probe_turn, reserve_turn,
  recovery_turn,
}

-- A log: the frames of commits that were applied one after the other, their count, and the states
-- before and behind them.
pub data Log ⦃sha : Sha256⦄ ⦃text : Utf8⦄
    : CommittedState → List ℕ → ℕ → CommittedState → Type 0 where
  empty : (state : CommittedState) → Log state [] 0 state
  written :
      (state : CommittedState) (commit frame : List ℕ) (ordinal : ℕ) (state' : CommittedState)
      (frames : List ℕ) (count : ℕ) (last : CommittedState)
      → encode_hot_frame commit ≡ ok frame
      → apply_commit state commit ≡ ok (applied ordinal, state')
      → Log state' frames count last
      → Log state (frame ++ frames) (suc count) last

-- What may follow the last complete frame: nothing, the zeros of the reserve, or a frame that is torn.
pub data Ends : List ℕ → RecoveryStop → Type 0 where
  nothing : Ends [] end_of_bytes
  reserve : (zeros : ℕ) → Ends (0 ∷ replicate zeros 0) zero_reserve
  torn_frame :
      (tail : List ℕ)
      → 0 < length tail
      → starts_with_zero_reserve tail ≡ false
      → same_bytes (take 4 tail) structural_magic ≡ false
      → probe_hot_frame tail ≡ ok torn
      → Ends tail torn_final_commit

all_zero-replicate : (n : ℕ) → all_zero (replicate n 0) ≡ true
all_zero-replicate zero = refl
all_zero-replicate (suc n) = all_zero-replicate n

first_byte :
    (width : ℕ) (bytes : List ℕ) → (ltb 0 width && all_zero (take width (b'T' ∷ bytes))) ≡ false
first_byte zero bytes = refl
first_byte (suc width) bytes = rw (lt→ltb 0 (suc width) (omega arith)) refl

-- Bytes that begin with the magic of a commit begin with neither zeros nor a bare transaction.
pub magic_first :
    (bytes : List ℕ)
    → take 4 bytes ≡ commit_magic
    → (starts_with_zero_reserve bytes ≡ false)
      × (same_bytes (take 4 bytes) structural_magic ≡ false)
unfolding starts_with_zero_reserve
magic_first [] h = absurd (cc h)
magic_first (b ∷ bytes) h =
    let is : b ≡ b'T' = cc h in
    (
      ap
            (λ c.
              ltb 0 (min (length (c ∷ bytes)) 4)
              && all_zero (take (min (length (c ∷ bytes)) 4) (c ∷ bytes)))
            is
          ∙ first_byte (min (length (b'T' ∷ bytes)) 4) bytes,
      ap (λ l. same_bytes l structural_magic) h,
    )

reserve_first : (zeros : ℕ) → starts_with_zero_reserve (0 ∷ replicate zeros 0) ≡ true
unfolding starts_with_zero_reserve
reserve_first zeros = go (min (length (0 ∷ replicate zeros 0)) 4) (omega arith)
  where
    prefix : (width n : ℕ) → all_zero (take width (replicate n 0)) ≡ true
    prefix zero n = refl
    prefix (suc width) zero = refl
    prefix (suc width) (suc n) = prefix width n

    go :
        (width : ℕ)
        → 0 < width
        → (ltb 0 width && all_zero (take width (0 ∷ replicate zeros 0))) ≡ true
    go zero lt = absurd (omega arith)
    go (suc width) lt = rw (lt→ltb 0 (suc width) (omega arith)) (prefix width zeros)

module _ ⦃sha : Sha256⦄ ⦃text : Utf8⦄ where
  -- The last turn, or the end of the bytes.
  pub end_turn :
      (tail : List ℕ) (cursor count : ℕ) (state : CommittedState) (stop : RecoveryStop)
      → Ends tail stop
      → 0 < length tail
      → recovery_turn tail cursor count state ≡ ok (stopped stop)
  unfolding recovery_turn reserve_turn probe_turn take_frame
  end_turn tail cursor count state stop nothing some_ = absurd (omega arith)
  end_turn tail cursor count state stop (reserve zeros) some_ =
      rw (reserve_first zeros, all_zero-replicate zeros) refl
  end_turn tail cursor count state stop (torn_frame t long begins bare probed) some_ =
      rw (begins, bare, probed) refl

  -- A turn at a frame whose commit is applied.
  pub frame_turn :
      (commit frame tail : List ℕ) (cursor count ordinal : ℕ) (state state' : CommittedState)
      → encode_hot_frame commit ≡ ok frame
      → apply_commit state commit ≡ ok (applied ordinal, state')
      → cursor + length frame ≤ u64_max
      → count + 1 ≤ u64_max
      → recovery_turn (frame ++ tail) cursor count state
        ≡ ok (advanced (cursor + length frame) (count + 1) state')
  unfolding recovery_turn probe_turn take_frame applied_state
  frame_turn commit frame tail cursor count ordinal state state' encoded applies small few =
      let (probed, first) = probe_hot_frame-encode_hot_frame commit tail encoded in
      let (magic, field, long, shape) =
        probe_hot_frame-complete (frame ++ tail) (length commit) (length frame) probed in
      let (begins, bare) = magic_first (frame ++ tail) magic in
      let wide : length commit ≤ length (frame ++ tail) =
        omega (arith, shape.is_len, length-append {0} frame tail) in
      let found : get_or_err (frame ++ tail) 0 (length commit)
            (invalid "v2 commit range exceeds WAL bytes")
          ≡ ok commit =
        get_or_err_found (frame ++ tail) 0 (length commit)
          (invalid "v2 commit range exceeds WAL bytes")
          (slice-eq (frame ++ tail) 0 (length commit) (omega arith) wide
            ∙ ap (λ n. some (take n (frame ++ tail))) (omega arith)
            ∙ ap some first) in
      rw
        (
          begins,
          bare,
          probed,
          found,
          applies,
          le→leb (cursor + length frame) u64_max small,
          le→leb (count + 1) u64_max few,
        )
        refl

  pub length-encode_hot_frame :
      (commit : List ℕ) {frame : List ℕ} → encode_hot_frame commit ≡ ok frame → 128 ≤ length frame
  length-encode_hot_frame commit {frame} encoded =
      let (probed, first) = probe_hot_frame-encode_hot_frame commit [] encoded in
      let (magic, field, long, shape) =
        probe_hot_frame-complete (frame ++ []) (length commit) (length frame) probed in
      omega (arith, shape.is_len, long)
