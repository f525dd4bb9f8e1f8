-- ===== src/Format/Reads.antt =====
-- Reads of the later codecs: a range of a slice, and a number of a fixed width at an offset.
use tulya_checkpoint_store.Prelude.{
  ℕ, ◌+◌, ◌-◌, ◌≤◌, ◌≡◌, ◌∙◌, ap, sym, List, ◌++◌, none, some, length, take, drop, slice,
  append_assoc, slice-eq, slice_appended, slice-append, Result, ok, err, ◌>>=◌, checked_add,
  u64_max, le→leb, arith,
}
use tulya_checkpoint_store.Format.Bytes.{from_le_bytes}

-- `bytes.get(start..end).ok_or(e)?`
unfoldable pub get_or_err {ℓ} : {E : Type ℓ} → List ℕ → ℕ → ℕ → E → Result E (List ℕ)
get_or_err bytes start end e = elim (slice bytes start end) [ none ↦ err e | some found ↦ ok found ]

-- `from_le_bytes(bytes.get(offset..offset.checked_add(n)?)?.try_into()?)`; a range of `n` bytes
-- converts to an array of them.
unfoldable pub read_le {ℓ} : {E : Type ℓ} → ℕ → List ℕ → ℕ → E → E → Result E ℕ
read_le n bytes offset too_far missing = do
  end ← checked_add u64_max offset n too_far
  encoded ← get_or_err bytes offset end missing
  ok (from_le_bytes encoded)

pub get_or_err_found {ℓ} :
    {E : Type ℓ} (bytes : List ℕ) (start end : ℕ) (e : E) {found : List ℕ}
    → slice bytes start end ≡ some found
    → get_or_err bytes start end e ≡ ok found
unfolding get_or_err
get_or_err_found bytes start end e h = ap (λ s. elim s [ none ↦ err e | some found ↦ ok found ]) h

pub slice_head :
    (head tail : List ℕ) (offset n : ℕ)
    → offset + n ≤ length head
    → slice (head ++ tail) offset (offset + n) ≡ some (take n (drop offset head))
slice_head head tail offset n h =
    let e : offset + n - offset ≡ n = omega arith in
    slice-append head tail offset (offset + n) (
      slice-eq head offset (offset + n) (omega arith) h
      ∙ ap (λ k. some (take k (drop offset head))) e)

-- A part that stands between two others.
pub slice_middle :
    (head part tail : List ℕ) (start end : ℕ)
    → length head ≡ start
    → length head + length part ≡ end
    → slice (head ++ (part ++ tail)) start end ≡ some part
slice_middle head part tail start end e f =
    ap (λ l. slice l start end) (sym (append_assoc head part tail))
    ∙ ap (λ k. slice ((head ++ part) ++ tail) k end) (sym e)
    ∙ ap (λ k. slice ((head ++ part) ++ tail) (length head) k) (sym f)
    ∙ slice-append (head ++ part) tail (length head) (length head + length part)
        (slice_appended head part)

-- What stands behind a header.
pub slice_tail :
    (head tail : List ℕ) (start end : ℕ)
    → length head ≡ start
    → length head + length tail ≡ end
    → slice (head ++ tail) start end ≡ some tail
slice_tail head tail start end e f =
    ap (λ k. slice (head ++ tail) k end) (sym e)
    ∙ ap (λ k. slice (head ++ tail) (length head) k) (sym f)
    ∙ slice_appended head tail

pub read_le_head {ℓ} :
    {E : Type ℓ} (head tail : List ℕ) (n offset : ℕ) (too_far missing : E)
    → offset + n ≤ length head
    → length head ≤ u64_max
    → read_le n (head ++ tail) offset too_far missing
      ≡ ok (from_le_bytes (take n (drop offset head)))
unfolding read_le
read_le_head head tail n offset too_far missing h small =
    rw (le→leb (offset + n) u64_max (omega arith)) (
      rw (
        get_or_err_found (head ++ tail) offset (offset + n) missing
          (slice_head head tail offset n h)))
