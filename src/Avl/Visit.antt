-- ===== src/Avl/Visit.antt =====
-- One visit of a range read, on trees that the arena holds.
use tulya_checkpoint_store.Prelude
use tulya_checkpoint_store.Prelude.{
  ℕ, zero, suc, ◌+◌, ◌-◌, ◌*◌, ◌≤◌, ◌<◌, ◌≡◌, refl, sym, ap, ◌∙◌, true, false, inl, inr, Bool-cases,
  min, List, [], ◌∷◌, ◌++◌, arith, length, take, drop, u64_max, ok, err, ltb, leb, ltb→lt, ltb→le,
  le→ltb, lt→ltb, le→leb, append-nil, append_assoc, slice_sub, length-drop, take-append_left,
  take-append_right, take_all, drop-append_left, drop-append_right, slice, some, saturating_add,
}
use tulya_checkpoint_store.Format.Records.{Sha256}
use tulya_checkpoint_store.Avl.Arena.{Arena}
use tulya_checkpoint_store.Avl.Read.{Pending, emit, visit_leaf, visit_node, visit}
use tulya_checkpoint_store.Avl.Tree.{Tree, leaf, content, len_of, root_of, node_of}
use tulya_checkpoint_store.Avl.Held.{node_for_root_held, validate_held, read_held}
use tulya_checkpoint_store.Avl.Pieces.{IsHeld}

-- A held tree with a range of it.
abbrev pub Entry : Type 0
Entry = Tree × ℕ × ℕ

abbrev pub bytes_of : List Entry → List ℕ
bytes_of [] = []
bytes_of ((t, offset, len) ∷ rest) = take len (drop offset (content t)) ++ bytes_of rest

-- Two visits for each byte of a tree but one.
abbrev pub visits_of : List Entry → ℕ
visits_of [] = 0
visits_of ((t, offset, len) ∷ rest) = (2 * len_of t - 1) + visits_of rest

-- The range that a branch passes on is cut at the end of its left child.
pub take-drop-append :
    (xs ys : List ℕ) (offset len : ℕ)
    → offset ≤ length xs
    → take len (drop offset (xs ++ ys))
      ≡ take (min len (length xs - offset)) (drop offset xs)
        ++ take (len - min len (length xs - offset)) ys
take-drop-append xs ys offset len h =
    let rest = drop offset xs in
    let size : length rest ≡ length xs - offset = length-drop offset xs in
    ap (take len) (drop-append_left offset xs ys h) ∙ elim (Bool-cases (leb len (length rest))) [
      | inl e ↦
          (let fits : len ≤ length rest = Prelude.leb→le len (length rest) e in
            let m : min len (length xs - offset) ≡ len = omega arith in
            let z : len - min len (length xs - offset) ≡ zero = omega arith in
            take-append_left len rest ys fits
            ∙ sym (append-nil (take len rest))
            ∙ ap (λ k. take len rest ++ take k ys) (sym z)
            ∙ ap (λ k. take k rest ++ take (len - min len (length xs - offset)) ys) (sym m))
      | inr e ↦
          (let beyond : length rest < len = Prelude.leb→lt len (length rest) e in
            let m : length rest ≡ min len (length xs - offset) = omega arith in
            let k : len ≡ length rest + (len - min len (length xs - offset)) = omega arith in
            ap (λ n. take n (rest ++ ys)) k
            ∙ take-append_right (len - min len (length xs - offset)) rest ys
            ∙ ap (λ l. l ++ take (len - min len (length xs - offset)) ys)
                (sym (take_all (length rest) rest (omega arith)))
            ∙ ap (λ n. take n rest ++ take (len - min len (length xs - offset)) ys) m)
    ]

module _ ⦃sha : Sha256⦄ (arena : Arena) where
  abbrev pub pending : List Entry → List Pending
  pending [] = []
  pending ((t, offset, len) ∷ rest) = (root_of t, offset, len) ∷ pending rest

  abbrev pub AllValid : List Entry → Type 0
  AllValid [] = Unit
  AllValid ((t, offset, len) ∷ rest) =
      IsHeld arena t × (len_of t ≤ u64_max) × (0 < len) × (offset + len ≤ len_of t) × AllValid rest

  pub visit_leaf_held :
      (i start : ℕ) (bytes : List ℕ) (offset len : ℕ)
      → IsHeld arena (leaf i start bytes)
      → offset + len ≤ length bytes
      → visit_leaf arena start (length bytes) offset len ≡ ok (emit (take len (drop offset bytes)))
  unfolding visit_leaf
  visit_leaf_held i start bytes offset len h within =
      let e : start + offset + len - (start + offset) ≡ len = omega arith in
      let f : start + offset - start ≡ offset = omega arith in
      let found : slice arena.payload (start + offset) (start + offset + len)
          ≡ some (take len (drop offset bytes)) =
        slice_sub arena.payload start (start + length bytes) (start + offset) (start + offset + len)
          h.stored.1 (omega arith) (omega arith) (omega arith)
        ∙ ap (λ k. some (take k (drop (start + offset - start) bytes))) e
        ∙ ap (λ k. some (take len (drop k bytes))) f in
      rw
        (
          le→leb (offset + len) u64_max (omega (arith, h.balanced)),
          le→ltb (length bytes) (offset + len) within,
          le→leb (start + offset) u64_max (omega (arith, h.balanced)),
          le→leb (start + offset + len) u64_max (omega (arith, h.balanced)),
        )
        (rw (read_held arena (start + offset) (start + offset + len) found))

  pub visit_held :
      (t : Tree) (offset len : ℕ)
      → IsHeld arena t
      → len_of t ≤ u64_max
      → visit arena (root_of t) offset len ≡ visit_node arena (node_of t) offset len
  unfolding visit
  visit_held t offset len h n =
      rw (
        node_for_root_held arena t h.balanced h.stored,
        validate_held arena t h.balanced h.stored n,
      )
