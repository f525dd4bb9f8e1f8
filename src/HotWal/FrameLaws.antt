-- ===== src/HotWal/FrameLaws.antt =====
-- What the probe of a frame finds when it reports a complete one.
use tulya_checkpoint_store.Prelude.{
  min, ◌≢◌, Option, none, not, ltb→le, Result, bind_inv, checked_add, try_from, String,
  if◌then◌else◌, ℕ, ◌+◌, ◌≤◌, ◌≡◌, refl, sym, ap, ◌∙◌, List, Bool, true, false, length, slice, some,
  arith, ok, err, take, ltb,
}
use tulya_checkpoint_store.Format.Codec.{same_bytes}
use tulya_checkpoint_store.Format.ByteLists.{same_bytes-eq}
use tulya_checkpoint_store.HotWal.Authority.{all_zero}
use tulya_checkpoint_store.HotWal.Frame.{
  starts_with, probe_short, commit_magic, commit_header_size, invalid_frame, get_range, footer_size,
  probe_hot_frame, HotFrameError, HotFrameProbe, complete, torn, digest_offset, digest_end, footer,
  check_footer, probe_footer, read_u32, is_zero_padded_prefix,
}

-- The bytes of a complete frame: the footer stands behind the commit, with the length of the frame
-- and the digest field of the commit.
pub record IsFrame (bytes : List ℕ) (commit_len frame_len : ℕ) : Type 0 where
  pub commit_digest : List ℕ
  pub is_digest : slice bytes digest_offset digest_end ≡ some commit_digest
  pub is_footer : slice bytes commit_len frame_len ≡ some (footer frame_len commit_digest)
  pub is_len : frame_len ≡ commit_len + footer_size

check_footer_inv :
    (commit_len frame_len : ℕ) (actual expected : List ℕ) (c f : ℕ)
    → check_footer commit_len frame_len actual expected ≡ ok (complete c f)
    → (commit_len ≡ c) × (frame_len ≡ f) × (actual ≡ expected)
unfolding check_footer
check_footer_inv commit_len frame_len actual expected c f h =
    go (same_bytes actual expected) (is_zero_padded_prefix actual expected) refl h
  where
    go :
        (same padded : Bool)
        → same_bytes actual expected ≡ same
        → (if same
            then ok (complete commit_len frame_len)
            else if padded
            then ok torn
            else err (invalid_frame "v2 hot completion footer mismatch"))
          ≡ ok (complete c f)
        → (commit_len ≡ c) × (frame_len ≡ f) × (actual ≡ expected)
    go true padded is_same e = (cc e, cc e, same_bytes-eq actual expected is_same)
    go false true is_same e = absurd (cc e)
    go false false is_same e = absurd (cc e)

get_range_inv :
    (bytes : List ℕ) (start end : ℕ) (message : String) {found : List ℕ}
    → get_range bytes start end message ≡ ok found
    → slice bytes start end ≡ some found
get_range_inv bytes start end message h = ground arith

checked_add_inv :
    (greatest a b : ℕ) (e : HotFrameError) {n : ℕ} → checked_add greatest a b e ≡ ok n → n ≡ a + b
checked_add_inv greatest a b e h = ground arith

try_from_inv : (greatest a : ℕ) (e : HotFrameError) {n : ℕ} → try_from greatest a e ≡ ok n → n ≡ a
try_from_inv greatest a e h = ground arith

-- A probe that may stop as torn and does not, goes on.
goes_on :
    (b : Bool) (rest : Result HotFrameError HotFrameProbe) {c f : ℕ}
    → (if b then ok torn else rest) ≡ ok (complete c f)
    → rest ≡ ok (complete c f)
goes_on true rest h = absurd (cc h)
goes_on false rest h = h

probe_footer_inv :
    (bytes : List ℕ) (commit_len c f : ℕ)
    → probe_footer bytes commit_len ≡ ok (complete c f)
    → (commit_len ≡ c) × IsFrame bytes c f
unfolding probe_footer
probe_footer_inv bytes commit_len c f h0 =
    let (frame_len, is_sum, h1) = bind_inv h0 in
    let h2 = goes_on (ltb (length bytes) frame_len) _ h1 in
    let (width, is_width, h3) = bind_inv h2 in
    let (commit_digest, is_digest, h4) = bind_inv h3 in
    let (actual, is_actual, h5) = bind_inv h4 in
    let (same_c, same_f, is_footer) = check_footer_inv commit_len frame_len actual _ c f h5 in
    let width_eq : width ≡ f = try_from_inv _ _ _ is_width ∙ same_f in
    (
      same_c,
      record {
        commit_digest = commit_digest;
        is_digest = get_range_inv bytes digest_offset digest_end _ is_digest;
        is_footer =
            ap (λ s. slice bytes s f) (sym same_c)
            ∙ ap (slice bytes commit_len) (sym same_f)
            ∙ get_range_inv bytes commit_len frame_len _ is_actual
            ∙ ap some (is_footer ∙ ap (λ n. footer n commit_digest) width_eq);
        is_len = sym same_f ∙ checked_add_inv _ _ _ _ is_sum ∙ ap (λ n. n + footer_size) same_c;
      },
    )

-- The arm of a short commit reports no complete frame.
probe_short_incomplete : (bytes : List ℕ) (c f : ℕ) → probe_short bytes ≢ ok (complete c f)
unfolding probe_short
probe_short_incomplete bytes c f h = go (slice bytes 8 (min (length bytes) commit_header_size)) h
  where
    go :
        (tail : Option (List ℕ))
        → elim tail [
          | none ↦ err (invalid_frame "v2 hot commit length is shorter than its header")
          | some tail ↦
              (if all_zero tail
                then ok torn
                else err (invalid_frame "v2 hot commit length is shorter than its header"))
        ]
          ≢ ok (complete c f)
    go none e = absurd (cc e)
    go (some tail) e = absurd (cc (goes_on (all_zero tail) _ e))

long_commit :
    (short : Bool) (bytes : List ℕ) (commit_len c f : ℕ)
    → (if short then probe_short bytes else probe_footer bytes commit_len) ≡ ok (complete c f)
    → (short ≡ false) × (probe_footer bytes commit_len ≡ ok (complete c f))
long_commit true bytes commit_len c f h = absurd (probe_short_incomplete bytes c f h)
long_commit false bytes commit_len c f h = (refl, h)

tests_pass :
    (few starts magic short : Bool) (rest : Result HotFrameError HotFrameProbe) (c f : ℕ)
    → (if few
        then (if starts then ok torn else err (invalid_frame "v2 hot frame magic is truncated"))
        else if not magic
        then err (invalid_frame "v2 hot frame commit magic mismatch")
        else if short
        then ok torn
        else rest)
      ≡ ok (complete c f)
    → (magic ≡ true) × (rest ≡ ok (complete c f))
tests_pass true true magic short rest c f h = absurd (cc h)
tests_pass true false magic short rest c f h = absurd (cc h)
tests_pass false starts false short rest c f h = absurd (cc h)
tests_pass false starts true true rest c f h = absurd (cc h)
tests_pass false starts true false rest c f h = (refl, h)

-- When the probe reports a complete frame, the bytes begin with the magic of a commit and with its
-- length, which is that of the header at least, and the footer behind the commit holds the length of
-- the frame and the digest field of the commit.
pub probe_hot_frame-complete :
    (bytes : List ℕ) (c f : ℕ)
    → probe_hot_frame bytes ≡ ok (complete c f)
    → (take 4 bytes ≡ commit_magic)
      × (read_u32 bytes 4 ≡ ok c)
      × (commit_header_size ≤ c)
      × IsFrame bytes c f
unfolding probe_hot_frame
probe_hot_frame-complete bytes c f h0 =
    let (magic, h1) =
      tests_pass (ltb (length bytes) 4) (starts_with commit_magic bytes)
        (same_bytes (take 4 bytes) commit_magic) (ltb (length bytes) 8) _ c f h0 in
    let (commit_len, is_len, h2) = bind_inv h1 in
    let (long, h3) = long_commit (ltb commit_len commit_header_size) bytes commit_len c f h2 in
    let (same_c, frame) = probe_footer_inv bytes commit_len c f h3 in
    (
      same_bytes-eq (take 4 bytes) commit_magic magic,
      is_len ∙ ap (λ n. ok n) same_c,
      omega (arith, same_c, ltb→le commit_len commit_header_size long),
      frame,
    )
