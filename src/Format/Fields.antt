-- ===== src/Format/Fields.antt =====
-- Fixed-width fields: a number that fits comes back from its bytes, and a field of the header reads
-- from the header with any bytes behind it.
use Prim.Native.Nat.pow
use tulya_checkpoint_store.Prelude.{
  ℕ, zero, suc, ◌+◌, ◌/◌, ◌^◌, ◌≤◌, ◌<◌, ◌≡◌, ap, sym, ◌∙◌, String, List, ◌++◌, some, arith, length,
  take, drop, get_elem?, slice, Option, none, Result, slice_appended, get_elem?-append_left, le→leb,
  ok, err, u64_max, u32_max, u16_max,
}
use tulya_checkpoint_store.Format.Bytes.{to_le_bytes, from_le_bytes}
use tulya_checkpoint_store.Format.Records.{FormatError, invalid}
use tulya_checkpoint_store.Format.Reads.{slice_head}
use tulya_checkpoint_store.Format.Codec.{read_byte, read_array}

pub from_le_bytes-to_le_bytes : (k n : ℕ) → n < 256 ^ k → from_le_bytes (to_le_bytes k n) ≡ n
unfolding to_le_bytes from_le_bytes
from_le_bytes-to_le_bytes zero n h = omega (arith, pow.zero 256)
from_le_bytes-to_le_bytes (suc k) n h =
    let rest : from_le_bytes (to_le_bytes k (n / 256)) ≡ n / 256 =
      from_le_bytes-to_le_bytes k (n / 256) (omega (arith, pow.suc 256 k)) in
    omega (arith, rest)

pub u64_back : (n : ℕ) → n ≤ u64_max → from_le_bytes (to_le_bytes 8 n) ≡ n
u64_back n h = from_le_bytes-to_le_bytes 8 n (omega arith)

pub u32_back : (n : ℕ) → n ≤ u32_max → from_le_bytes (to_le_bytes 4 n) ≡ n
u32_back n h = from_le_bytes-to_le_bytes 4 n (omega arith)

pub u16_back : (n : ℕ) → n ≤ u16_max → from_le_bytes (to_le_bytes 2 n) ≡ n
u16_back n h = from_le_bytes-to_le_bytes 2 n (omega arith)

-- The match on what a read found.
abbrev found_or : {A : Type 0} → String → Option A → Result FormatError A
found_or message found = elim found [ none ↦ err (invalid message) | some b ↦ ok b ]

pub read_array_head :
    (head tail : List ℕ) (n offset : ℕ) (message : String)
    → offset + n ≤ length head
    → length head ≤ u64_max
    → read_array n (head ++ tail) offset message ≡ ok (take n (drop offset head))
unfolding read_array
read_array_head head tail n offset message h small =
    rw (le→leb (offset + n) u64_max (omega arith))
      (ap (found_or message) (slice_head head tail offset n h))

pub read_array_tail :
    (head tail : List ℕ) (n offset : ℕ) (message : String)
    → length head ≡ offset
    → length tail ≡ n
    → offset + n ≤ u64_max
    → read_array n (head ++ tail) offset message ≡ ok tail
unfolding read_array
read_array_tail head tail n offset message e f small = rw (le→leb (offset + n) u64_max small) (
    ap (found_or message) (
      ap (λ s. slice (head ++ tail) s (s + n)) (sym e)
      ∙ ap (λ k. slice (head ++ tail) (length head) (length head + k)) (sym f)
      ∙ slice_appended head tail))

pub read_byte_head :
    (head tail : List ℕ) (offset : ℕ) {b : ℕ} (message : String)
    → get_elem? head offset ≡ some b
    → read_byte (head ++ tail) offset message ≡ ok b
unfolding read_byte
read_byte_head head tail offset message h =
    ap (found_or message) (get_elem?-append_left head tail offset h)
