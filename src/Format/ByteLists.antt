-- ===== src/Format/ByteLists.antt =====
-- Lists of bytes, and the fields that are read from them.
use tulya_checkpoint_store.Prelude.{
  ℕ, zero, suc, ◌+◌, ◌*◌, ◌/◌, ◌%◌, ◌≤◌, ◌<◌, ◌≡◌, refl, sym, ap, ◌∙◌, String, true, List, [], ◌∷◌,
  arith, length, length-take, length-drop, take, drop, get_elem?, some, ok,
}
use tulya_checkpoint_store.Format.Bytes.{to_le_bytes, from_le_bytes}
use tulya_checkpoint_store.Format.Codec.{same_bytes, read_byte, read_array}

-- A list of bytes.
abbrev pub AllBytes : List ℕ → Type 0
AllBytes [] = Unit
AllBytes (b ∷ bytes) = (b < 256) × AllBytes bytes

AllBytes-take : (n : ℕ) (bytes : List ℕ) → AllBytes bytes → AllBytes (take n bytes)
AllBytes-take zero bytes h = tt
AllBytes-take (suc n) [] h = tt
AllBytes-take (suc n) (b ∷ bytes) (lt, h) = (lt, AllBytes-take n bytes h)

AllBytes-drop : (n : ℕ) (bytes : List ℕ) → AllBytes bytes → AllBytes (drop n bytes)
AllBytes-drop zero bytes h = h
AllBytes-drop (suc n) [] h = tt
AllBytes-drop (suc n) (b ∷ bytes) (lt, h) = AllBytes-drop n bytes h

to_le_bytes-from_le_bytes :
    (bytes : List ℕ) → AllBytes bytes → to_le_bytes (length bytes) (from_le_bytes bytes) ≡ bytes
unfolding to_le_bytes from_le_bytes
to_le_bytes-from_le_bytes [] h = refl
to_le_bytes-from_le_bytes (b ∷ bytes) (lt, h) =
    let low : (b + 256 * from_le_bytes bytes) % 256 ≡ b = omega arith in
    let rest : (b + 256 * from_le_bytes bytes) / 256 ≡ from_le_bytes bytes = omega arith in
    rw (low, rest) (ap (λ l. b ∷ l) (to_le_bytes-from_le_bytes bytes h))

-- A field of `n` bytes comes back from its number.
pub field_back :
    (n offset : ℕ) (bytes : List ℕ)
    → AllBytes bytes
    → offset + n ≤ length bytes
    → to_le_bytes n (from_le_bytes (take n (drop offset bytes))) ≡ take n (drop offset bytes)
field_back n offset bytes h within =
    let part = take n (drop offset bytes) in
    let size : length part ≡ n =
      omega (arith, length-take {0} n (drop offset bytes), length-drop {0} offset bytes) in
    ap (λ k. to_le_bytes k (from_le_bytes part)) (sym size)
    ∙ to_le_bytes-from_le_bytes part (AllBytes-take n _ (AllBytes-drop offset bytes h))

pub same_bytes-eq : (xs ys : List ℕ) → same_bytes xs ys ≡ true → xs ≡ ys
same_bytes-eq [] [] h = refl
same_bytes-eq [] (y ∷ ys) h = absurd (cc h)
same_bytes-eq (x ∷ xs) [] h = absurd (cc h)
same_bytes-eq (x ∷ xs) (y ∷ ys) h =
    let (e, rest) : (x ≡ y) × (same_bytes xs ys ≡ true) = ground arith in
    rw e (ap (λ l. y ∷ l) (same_bytes-eq xs ys rest))

pub read_array_inv :
    (n offset : ℕ) (bytes : List ℕ) (message : String) {found : List ℕ}
    → read_array n bytes offset message ≡ ok found
    → found ≡ take n (drop offset bytes)
unfolding read_array
read_array_inv n offset bytes message h = ground arith

pub read_byte_inv :
    (offset : ℕ) (bytes : List ℕ) (message : String) {b : ℕ}
    → read_byte bytes offset message ≡ ok b
    → get_elem? bytes offset ≡ some b
unfolding read_byte
read_byte_inv offset bytes message h = ground arith

pub drop_at :
    (i : ℕ) (bytes : List ℕ) {b : ℕ}
    → get_elem? bytes i ≡ some b
    → drop i bytes ≡ b ∷ drop (suc i) bytes
drop_at i [] h = absurd (cc h)
drop_at zero (c ∷ bytes) h = cc h
drop_at (suc i) (c ∷ bytes) h = drop_at i bytes h
