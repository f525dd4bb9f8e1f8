-- ===== src/HotWal/TornWrites.antt =====
-- What the probe reports of a write of a frame that was cut off, with the zeros of the reserve
-- behind it.
use tulya_checkpoint_store.Prelude.{
  ℕ, zero, suc, ◌+◌, ◌-◌, ◌≤◌, ◌<◌, ◌≡◌, inl, inr, refl, sym, ap, ◌∙◌, arith, List, length, take,
  drop, min, replicate, slice-eq, Bool-cases, ltb, ltb→le, lt→ltb, le→ltb, le→leb, ok,
  if◌then◌else◌, u32_max,
}
use tulya_checkpoint_store.Format.Bytes.{from_le_bytes}
use tulya_checkpoint_store.HotWal.Frame.{
  torn, commit_magic, read_u32, footer, probe_footer, probe_short, probe_hot_frame,
}
use tulya_checkpoint_store.HotWal.FrameWrites.{get_range_found}
use tulya_checkpoint_store.HotWal.PaddedFooter.{all_zero-take, footer_torn}

-- The start of a footer is not zero.
footer_not_zeros : (n m c : ℕ) (digest : List ℕ) → ¬ (take n (replicate m 0) ≡ footer c digest)
unfolding footer
footer_not_zeros zero m c digest h = cc h
footer_not_zeros (suc n) zero c digest h = cc h
footer_not_zeros (suc n) (suc m) c digest h = cc h

-- A footer of which nothing was written is torn.
pub zeros_torn :
    (bytes : List ℕ) (c m : ℕ)
    → 88 ≤ c
    → c + 40 ≤ u32_max
    → drop c bytes ≡ replicate m 0
    → probe_footer bytes c ≡ ok torn
zeros_torn bytes c m long small behind =
    elim (footer_torn bytes c 0 m long small (omega arith) behind) [
      | inl e ↦ e
      | inr e ↦
          absurd (
            footer_not_zeros 40 m (c + 40) (take 32 (drop 56 bytes))
              (ap (take 40) (sym behind) ∙ e))
    ]

read_u32_at4 :
    (bytes : List ℕ)
    → 8 ≤ length bytes
    → read_u32 bytes 4 ≡ ok (from_le_bytes (take 4 (drop 4 bytes)))
unfolding read_u32
read_u32_at4 bytes long =
    rw
      (get_range_found bytes 4 8 "v2 hot u32 field is truncated"
        (slice-eq bytes 4 8 (omega arith) long))
      refl

-- The probe behind the magic and the length.
pub probe_long :
    (bytes : List ℕ) (c : ℕ)
    → 8 ≤ length bytes
    → take 4 bytes ≡ commit_magic
    → from_le_bytes (take 4 (drop 4 bytes)) ≡ c
    → probe_hot_frame bytes ≡ (if ltb c 88 then probe_short bytes else probe_footer bytes c)
unfolding probe_hot_frame
probe_long bytes c long magic is =
    rw
      (
        le→ltb (length bytes) 4 (omega arith),
        magic,
        le→ltb (length bytes) 8 long,
        read_u32_at4 bytes long,
        is,
      )
      refl

pub probe_tiny :
    (bytes : List ℕ)
    → 4 ≤ length bytes
    → length bytes < 8
    → take 4 bytes ≡ commit_magic
    → probe_hot_frame bytes ≡ ok torn
unfolding probe_hot_frame
probe_tiny bytes long short magic =
    rw (le→ltb (length bytes) 4 long, magic, lt→ltb (length bytes) 8 short) refl

-- Zeros behind eight bytes.
probe_short_zeros :
    (bytes : List ℕ) (m : ℕ)
    → 8 ≤ length bytes
    → drop 8 bytes ≡ replicate m 0
    → probe_short bytes ≡ ok torn
unfolding probe_short
probe_short_zeros bytes m long behind =
    let n = min (length bytes) 88 in
    rw
      (
        probe_short,
        le→leb 8 n (omega arith),
        le→leb n (length bytes) (omega arith),
        behind,
        all_zero-take (n - 8) m,
      )
      refl

-- A length that was written in part, or whole, with zeros behind the place of the footer.
pub length_torn :
    (bytes : List ℕ) (c m m' : ℕ)
    → 8 ≤ length bytes
    → take 4 bytes ≡ commit_magic
    → from_le_bytes (take 4 (drop 4 bytes)) ≡ c
    → c + 40 ≤ u32_max
    → drop 8 bytes ≡ replicate m' 0
    → (88 ≤ c → drop c bytes ≡ replicate m 0)
    → probe_hot_frame bytes ≡ ok torn
length_torn bytes c m m' long magic is small zeros behind =
    probe_long bytes c long magic is ∙ (elim (Bool-cases (ltb c 88)) [
      | inl e ↦ rw e (probe_short_zeros bytes m' long zeros)
      | inr e ↦ rw e (zeros_torn bytes c m (ltb→le _ _ e) small (behind (ltb→le _ _ e)))
    ])
