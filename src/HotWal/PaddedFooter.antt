-- ===== src/HotWal/PaddedFooter.antt =====
-- Zeros behind a cut, and a footer that was written in part.
use tulya_checkpoint_store.Prelude.{
  ℕ, zero, suc, ◌+◌, ◌-◌, ◌≤◌, ◌≡◌, ◌⊎◌, inl, inr, refl, sym, ap, ◌∙◌, arith, List, [], ◌∷◌, ◌++◌,
  true, false, ◌&&◌, ◌||◌, some, length, length-append, length-take, length-drop, take, drop,
  replicate, take_front, drop_front, drop-append_right, take-take, drop-take, slice-eq, Bool-cases,
  ltb, ltb→lt, ltb→le, le→leb, ==_iff, ok, u32_max, u64_max,
}
use tulya_checkpoint_store.Format.Bytes.{from_le_bytes, to_le_bytes}
use tulya_checkpoint_store.Format.Codec.{same_bytes}
use tulya_checkpoint_store.Format.ByteLists.{same_bytes-eq}
use tulya_checkpoint_store.Wal.Sections.{same_bytes_refl}
use tulya_checkpoint_store.HotWal.Authority.{all_zero}
use tulya_checkpoint_store.HotWal.Frame.{
  torn, padded_at, is_zero_padded_prefix, footer, check_footer, probe_footer,
}
use tulya_checkpoint_store.HotWal.FrameWrites.{get_range_found}

-- Zeros.
pub all_zero-take : (n z : ℕ) → all_zero (take n (replicate z 0)) ≡ true
all_zero-take zero z = refl
all_zero-take (suc n) zero = refl
all_zero-take (suc n) (suc z) = all_zero-take n z

drop-replicate : (n z : ℕ) → drop {A = ℕ} n (replicate z 0) ≡ replicate (z - n) 0
drop-replicate zero z = ap (λ k. replicate k 0) (omega arith)
drop-replicate (suc n) zero = ap (λ k. replicate k 0) (let e : 0 ≡ 0 - suc n = omega arith in e)
drop-replicate (suc n) (suc z) =
    drop-replicate n z ∙ ap (λ k. replicate k 0) (let e : z - n ≡ suc z - suc n = omega arith in e)

zero_value : (n z : ℕ) → from_le_bytes (take n (replicate z 0)) ≡ 0
unfolding from_le_bytes
zero_value zero z = refl
zero_value (suc n) zero = refl
zero_value (suc n) (suc z) = omega (arith, zero_value n z)

-- A number of which only the low bytes were written is no larger.
pub low_bytes :
    (n k z : ℕ) (bytes : List ℕ)
    → from_le_bytes (take n (take k bytes ++ replicate z 0)) ≤ from_le_bytes (take n bytes)
unfolding from_le_bytes
low_bytes zero k z bytes = omega arith
low_bytes (suc n) zero z bytes = omega (arith, zero_value (suc n) z)
low_bytes (suc n) (suc k) z [] = omega (arith, zero_value (suc n) z)
low_bytes (suc n) (suc k) z (b ∷ bytes) = omega (arith, low_bytes n k z bytes)

-- Behind the cut there are zeros only.
pub drop_past :
    (n w z : ℕ) (frame : List ℕ)
    → w ≤ length frame
    → w ≤ n
    → drop n (take w frame ++ replicate z 0) ≡ replicate (z - (n - w)) 0
drop_past n w z frame within le =
    let size = length-take {0} w frame in
    let e : n ≡ length (take w frame) + (n - w) = omega (arith, size, within, le) in
    ap (λ k. drop k (take w frame ++ replicate z 0)) e
    ∙ drop-append_right (n - w) (take w frame) (replicate z 0)
    ∙ drop-replicate (n - w) z

-- A footer of which a part is written, with zeros behind it, is a padded prefix.
padded_at_lem :
    (n k : ℕ) (actual expected : List ℕ)
    → k ≤ n
    → take k actual ≡ take k expected
    → all_zero (drop k actual) ≡ true
    → padded_at n actual expected ≡ true
unfolding padded_at
padded_at_lem zero zero actual expected le same rest = rest
padded_at_lem zero (suc k) actual expected le same rest = absurd (omega arith)
padded_at_lem (suc n) k actual expected le same rest = elim (Bool-cases (ltb k (suc n))) [
  | inl e ↦ rw (padded_at_lem n k actual expected (omega (arith, ltb→lt _ _ e)) same rest) (
      or_true (
        same_bytes (take (suc n) actual) (take (suc n) expected) && all_zero (drop (suc n) actual)))
  | inr e ↦
      let is : k ≡ suc n = omega (arith, ltb→le _ _ e) in
      let same' : take (suc n) actual ≡ take (suc n) expected =
        ap (λ j. take j actual) (sym is) ∙ same ∙ ap (λ j. take j expected) is in
      let rest' : all_zero (drop (suc n) actual) ≡ true =
        ap (λ j. all_zero (drop j actual)) (sym is) ∙ rest in
      rw (same', same_bytes_refl (take (suc n) expected), rest') refl
]
  where
    or_true : (b : _) → (b || true) ≡ true
    or_true true = refl
    or_true false = refl

length-footer : (n : ℕ) (digest : List ℕ) → length digest ≡ 32 → length (footer n digest) ≡ 40
unfolding footer to_le_bytes
length-footer n digest h = omega (arith, h, length-append {0} (to_le_bytes 4 n) digest)

-- A footer that was written in part, with zeros behind it, is torn or happens to be complete.
pub footer_torn :
    (bytes : List ℕ) (c k m : ℕ)
    → 88 ≤ c
    → c + 40 ≤ u32_max
    → k ≤ 40
    → drop c bytes ≡ take k (footer (c + 40) (take 32 (drop 56 bytes))) ++ replicate m 0
    → (probe_footer bytes c ≡ ok torn)
      ⊎ (take 40 (drop c bytes) ≡ footer (c + 40) (take 32 (drop 56 bytes)))
unfolding probe_footer check_footer is_zero_padded_prefix
footer_torn bytes c k m long small few behind = elim (Bool-cases (ltb (length bytes) (c + 40))) [
  | inl e ↦ inl (rw (le→leb (c + 40) u64_max (omega arith), e) refl)
  | inr e ↦
      let inside : c + 40 ≤ length bytes = ltb→le _ _ e in
      let digest = take 32 (drop 56 bytes) in
      let end = footer (c + 40) digest in
      let actual = take 40 (drop c bytes) in
      let d : length digest ≡ 32 =
        omega (arith, inside, long, length-take {0} 32 (drop 56 bytes), length-drop {0} 56 bytes) in
      let wide : length end ≡ 40 = length-footer (c + 40) digest d in
      let front : length (take k end) ≡ k = omega (arith, few, wide, length-take {0} k end) in
      let size : length actual ≡ length end =
        omega (arith, inside, wide, length-take {0} 40 (drop c bytes), length-drop {0} c bytes) in
      let written : take k actual ≡ take k end =
        take-take k 40 (drop c bytes) few
        ∙ ap (take k) behind
        ∙ take_front (take k end) (replicate m 0) k front in
      let zeros : all_zero (drop k actual) ≡ true =
        ap all_zero (
          drop-take k 40 (drop c bytes)
          ∙ ap (λ l. take (40 - k) (drop k l)) behind
          ∙ ap (take (40 - k)) (drop_front (take k end) (replicate m 0) k front))
        ∙ all_zero-take (40 - k) m in
      let e40 : c + 40 - c ≡ 40 = omega arith in
      elim (Bool-cases (same_bytes actual end)) [
        | inl same ↦ inr (same_bytes-eq actual end same)
        | inr other ↦ inl (
            rw
              (
                le→leb (c + 40) u64_max (omega arith),
                e,
                le→leb (c + 40) u32_max small,
                get_range_found bytes 56 88 "v2 hot commit digest field is truncated"
                    (slice-eq bytes 56 88 (omega arith) (omega (arith, inside, long))),
                get_range_found bytes c (c + 40) "v2 hot footer range is truncated" (
                    slice-eq bytes c (c + 40) (omega arith) inside
                    ∙ ap (λ j. some (take j (drop c bytes))) e40),
                other,
                (==_iff (length actual) (length end)).1 size,
                padded_at_lem (length actual) k actual end (omega (arith, size, wide, few)) written
                    zeros,
              )
              refl)
      ]
]
