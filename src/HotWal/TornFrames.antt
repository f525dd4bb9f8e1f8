-- ===== src/HotWal/TornFrames.antt =====
-- A frame of which four bytes or more were written, but not all, with the zeros of the reserve
-- behind them.
use tulya_checkpoint_store.Prelude.{
  ℕ, ◌+◌, ◌-◌, ◌≤◌, ◌<◌, ◌≡◌, ◌⊎◌, inl, inr, refl, sym, ap, ◌∙◌, arith, List, ◌++◌, length,
  length-append, length-take, length-drop, length-replicate, take, drop, replicate, take_add,
  take_all, take-append_left, drop-append_left, drop_front, take-take, drop-take, slice_inv,
  Bool-cases, ltb, ltb→lt, ltb→le, le→ltb, ok, u32_max,
}
use tulya_checkpoint_store.Format.Bytes.{from_le_bytes}
use tulya_checkpoint_store.Format.Records.{Sha256}
use tulya_checkpoint_store.Publication.Records.{Utf8}
use tulya_checkpoint_store.Commit.Fields.{decode_commit-Framed}
use tulya_checkpoint_store.HotWal.Frame.{torn, commit_magic, footer, probe_footer, probe_hot_frame}
use tulya_checkpoint_store.HotWal.FrameEncode.{encode_hot_frame}
use tulya_checkpoint_store.HotWal.FrameWrites.{encode_hot_frame_inv}
use tulya_checkpoint_store.HotWal.PaddedFooter.{drop_past, low_bytes, footer_torn}
use tulya_checkpoint_store.HotWal.TornWrites.{zeros_torn, probe_long, probe_tiny, length_torn}

-- The first bytes of a frame, and zeros.
abbrev pub cut_frame : ℕ → ℕ → List ℕ → List ℕ
cut_frame written padding frame = take written frame ++ replicate padding 0

pub length-cut_frame :
    (w z : ℕ) (frame : List ℕ) → w ≤ length frame → length (cut_frame w z frame) ≡ w + z
length-cut_frame w z frame cut = omega (
  arith,
  cut,
  length-append {0} (take w frame) (replicate z 0),
  length-take {0} w frame,
  length-replicate {0} {A = ℕ} z 0,
)

-- What the bytes of the commit keep, where they were written.
module _ (commit end frame : List ℕ) (is : frame ≡ commit ++ end) (w z : ℕ)
    (cut : w ≤ length frame) where
  head_kept : (m : ℕ) → m ≤ w → m ≤ length commit → take m (cut_frame w z frame) ≡ take m commit
  head_kept m le inside =
      take-append_left m (take w frame) (replicate z 0)
        (omega (arith, cut, le, length-take {0} w frame))
      ∙ take-take m w frame le
      ∙ ap (take m) is
      ∙ take-append_left m commit end inside

  window_kept :
      (s n : ℕ)
      → s + n ≤ w
      → s + n ≤ length commit
      → take n (drop s (cut_frame w z frame)) ≡ take n (drop s commit)
  window_kept s n le inside =
      let e : n ≡ s + n - s = omega arith in
      ap (λ k. take k (drop s (cut_frame w z frame))) e
      ∙ sym (drop-take s (s + n) (cut_frame w z frame))
      ∙ ap (drop s) (head_kept (s + n) le inside)
      ∙ drop-take s (s + n) commit
      ∙ ap (λ k. take k (drop s commit)) (sym e)

  -- Behind an offset that was passed, the rest that was written.
  drop_before :
      (n : ℕ) → n ≤ w → drop n (cut_frame w z frame) ≡ take (w - n) (drop n frame) ++ replicate z 0
  drop_before n le =
      drop-append_left n (take w frame) (replicate z 0)
        (omega (arith, cut, le, length-take {0} w frame))
      ∙ ap (λ l. l ++ replicate z 0) (drop-take n w frame)

-- Torn, or the zeros happen to complete the frame.
abbrev IsTorn : List ℕ → List ℕ → Type 0
IsTorn frame bytes = (probe_hot_frame bytes ≡ ok torn) ⊎ (take (length frame) bytes ≡ frame)

module _ (commit digest frame : List ℕ) (w z : ℕ)
    (is : frame ≡ commit ++ footer (length commit + 40) digest) (cut : w < length frame)
    (size : length frame ≡ length commit + 40) (small : length commit + 40 ≤ u32_max)
    (long : 88 ≤ length commit) (magic : take 4 commit ≡ commit_magic)
    (field : from_le_bytes (take 4 (drop 4 commit)) ≡ length commit)
    (digested : digest ≡ take 32 (drop 56 commit)) (some_ : 4 ≤ w) where
  abbrev end : List ℕ
  end = footer (length commit + 40) digest

  magic_kept : take 4 (cut_frame w z frame) ≡ commit_magic
  magic_kept = head_kept commit end frame is w z (omega arith) 4 some_ (omega arith) ∙ magic

  cut_in_header : w < 8 → IsTorn frame (cut_frame w z frame)
  cut_in_header short = elim (Bool-cases (ltb (w + z) 8)) [
    | inl e ↦ inl (
        probe_tiny (cut_frame w z frame) (omega (arith, total)) (omega (arith, total, ltb→lt _ _ e))
          magic_kept)
    | inr e ↦ inl (
        length_torn (cut_frame w z frame) value (z - (value - w)) (z - (8 - w))
          (omega (arith, total, ltb→le _ _ e)) magic_kept refl (omega (arith, bounded))
          (drop_past 8 w z frame (omega arith) (omega arith))
          (λ big. drop_past value w z frame (omega arith) (omega arith)))
  ]
    where
      total : length (cut_frame w z frame) ≡ w + z
      total = length-cut_frame w z frame (omega arith)

      value : ℕ
      value = from_le_bytes (take 4 (drop 4 (cut_frame w z frame)))

      bounded : value ≤ length commit
      bounded =
          let whole : take 4 (drop 4 frame) ≡ take 4 (drop 4 commit) =
            ap (λ l. take 4 (drop 4 l)) is
            ∙ ap (take 4) (drop-append_left 4 commit end (omega arith))
            ∙ take-append_left 4 (drop 4 commit) end (omega (arith, length-drop {0} 4 commit)) in
          omega (
            arith,
            ap (λ l. from_le_bytes (take 4 l))
                (drop_before commit end frame is w z (omega arith) 4 some_),
            low_bytes 4 (w - 4) z (drop 4 frame),
            ap from_le_bytes whole,
            field,
          )

  -- The length of the commit was written.
  value_kept : 8 ≤ w → from_le_bytes (take 4 (drop 4 (cut_frame w z frame))) ≡ length commit
  value_kept behind =
      ap from_le_bytes (window_kept commit end frame is w z (omega arith) 4 4 behind (omega arith))
      ∙ field

  total : length (cut_frame w z frame) ≡ w + z
  total = length-cut_frame w z frame (omega arith)

  probes_footer :
      8 ≤ w
      → probe_hot_frame (cut_frame w z frame) ≡ probe_footer (cut_frame w z frame) (length commit)
  probes_footer behind =
      probe_long (cut_frame w z frame) (length commit) (omega (arith, total, behind)) magic_kept
        (value_kept behind)
      ∙ rw (le→ltb (length commit) 88 long) refl

  cut_in_commit : 8 ≤ w → w ≤ length commit → IsTorn frame (cut_frame w z frame)
  cut_in_commit behind inside = inl (
      probes_footer behind
      ∙ zeros_torn (cut_frame w z frame) (length commit) (z - (length commit - w)) long small
          (drop_past (length commit) w z frame (omega arith) inside))

  cut_in_footer : length commit < w → IsTorn frame (cut_frame w z frame)
  cut_in_footer behind =
      let bytes = cut_frame w z frame in
      let kept : take 32 (drop 56 bytes) ≡ digest =
        window_kept commit end frame is w z (omega arith) 56 32 (omega arith) (omega arith)
        ∙ sym digested in
      let same : end ≡ footer (length commit + 40) (take 32 (drop 56 bytes)) =
        ap (footer (length commit + 40)) (sym kept) in
      let rest : drop (length commit) bytes ≡ take (w - length commit) end ++ replicate z 0 =
        drop_before commit end frame is w z (omega arith) (length commit) (omega arith)
        ∙ ap (λ l. take (w - length commit) l ++ replicate z 0)
            (ap (drop (length commit)) is ∙ drop_front commit end (length commit) refl) in
      let start : take (length commit) bytes ≡ commit =
        head_kept commit end frame is w z (omega arith) (length commit) (omega arith) (omega arith)
        ∙ take_all (length commit) commit (omega arith) in
      elim (footer_torn bytes (length commit) (w - length commit) z long small
        (omega (arith, cut, size))
        (rest ∙ ap (λ l. take (w - length commit) l ++ replicate z 0) same)) [
          | inl torn_ ↦ inl (probes_footer (omega arith) ∙ torn_)
          | inr whole ↦ inr (
              ap (λ k. take k bytes) size
              ∙ take_add (length commit) 40 bytes
              ∙ ap (λ l. l ++ take 40 (drop (length commit) bytes)) start
              ∙ ap (λ l. commit ++ l) (whole ∙ sym same)
              ∙ sym is)
        ]

  cut_anywhere : IsTorn frame (cut_frame w z frame)
  cut_anywhere = elim (Bool-cases (ltb w 8)) [
    | inl e ↦ cut_in_header (ltb→lt _ _ e)
    | inr e ↦ (elim (Bool-cases (ltb (length commit) w)) [
      | inl e' ↦ cut_in_footer (ltb→lt _ _ e')
      | inr e' ↦ cut_in_commit (ltb→le _ _ e) (ltb→le _ _ e')
    ])
  ]

module _ ⦃sha : Sha256⦄ ⦃text : Utf8⦄ where
  -- A frame that is encoded, of which four bytes or more were written, but not all, with zeros
  -- behind them, still begins with the magic of a commit, and is reported torn, unless the zeros
  -- complete it.
  pub probe_hot_frame-cut_frame :
      (commit : List ℕ) (w z : ℕ) {frame : List ℕ}
      → encode_hot_frame commit ≡ ok frame
      → 4 ≤ w
      → w < length frame
      → (take 4 (cut_frame w z frame) ≡ commit_magic)
        × ((probe_hot_frame (cut_frame w z frame) ≡ ok torn)
            ⊎ (take (length frame) (cut_frame w z frame) ≡ frame))
  probe_hot_frame-cut_frame commit w z {frame} h some_ cut =
      let (decoded, decodes, small, size, is) = encode_hot_frame_inv commit h in
      let (long, magic, field, digested) = decode_commit-Framed commit decodes in
      let (part, sliced, value) = field in
      let (a, b, window) = slice_inv commit 4 8 sliced in
      let (c, d, window') = slice_inv commit 56 88 digested in
      let number = ap from_le_bytes (sym window) ∙ value in
      (
        magic_kept commit decoded.commit_digest frame w z is cut size small long magic number
            window' some_,
        cut_anywhere commit decoded.commit_digest frame w z is cut size small long magic number
            window' some_,
      )
