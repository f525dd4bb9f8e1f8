-- ===== src/Avl/ReadLoop.antt =====
-- The traversal of a range read emits the bytes of its stack in order, within its fuel.
use tulya_checkpoint_store.Prelude.{
  ℕ, zero, suc, ◌+◌, ◌-◌, ◌*◌, ◌≤◌, ◌<◌, ◌≡◌, refl, sym, ap, ◌∙◌, inl, inr, Bool-cases, min, List,
  [], ◌∷◌, ◌++◌, arith, length, take, drop, u64_max, ok, ltb, ltb→lt, ltb→le, le→ltb, lt→ltb,
  append-nil, append_assoc, drop-append_right, saturating_add,
}
use tulya_checkpoint_store.Format.Records.{Sha256}
use tulya_checkpoint_store.Avl.Arena.{Arena}
use tulya_checkpoint_store.Avl.Read.{descend, visit_branch, visit_node, read_loop}
use tulya_checkpoint_store.Avl.Tree.{
  Tree, leaf, branch, content, len_of, root_of, len_of-eq, len_of-pos,
}
use tulya_checkpoint_store.Avl.Pieces.{IsHeld, IsHeld-left, IsHeld-right}
use tulya_checkpoint_store.Avl.Visit.{
  Entry, bytes_of, visits_of, take-drop-append, pending, AllValid, visit_leaf_held, visit_held,
}

bytes_of-append : (es fs : List Entry) → bytes_of (es ++ fs) ≡ bytes_of es ++ bytes_of fs
bytes_of-append [] fs = refl
bytes_of-append ((t, offset, len) ∷ es) fs =
    ap (λ b. take len (drop offset (content t)) ++ b) (bytes_of-append es fs)
    ∙ sym (append_assoc (take len (drop offset (content t))) (bytes_of es) (bytes_of fs))

visits_of-append : (es fs : List Entry) → visits_of (es ++ fs) ≡ visits_of es + visits_of fs
visits_of-append [] fs = omega arith
visits_of-append ((t, offset, len) ∷ es) fs = omega (arith, visits_of-append es fs)

module _ ⦃sha : Sha256⦄ (arena : Arena) where
  pending-append :
      (es fs : List Entry) → pending arena (es ++ fs) ≡ pending arena es ++ pending arena fs
  pending-append [] fs = refl
  pending-append ((t, offset, len) ∷ es) fs =
      ap (λ p. (root_of t, offset, len) ∷ p) (pending-append es fs)

  AllValid-append :
      (es fs : List Entry) → AllValid arena es → AllValid arena fs → AllValid arena (es ++ fs)
  AllValid-append [] fs h k = k
  AllValid-append ((t, offset, len) ∷ es) fs h k = (h.0, h.1, h.2, h.3, AllValid-append es fs h.4 k)

  -- The entries that a branch passes on: valid, with the same bytes, and cheaper.
  record PassesOn (l r : Tree) (offset len : ℕ) : Type 0 where
    entries : List Entry
    is_visit : visit_branch (root_of l) (root_of r) offset len ≡ descend (pending arena entries)
    valid : AllValid arena entries
    same_bytes : bytes_of entries ≡ take len (drop offset (content l ++ content r))
    cheaper : visits_of entries + 2 ≤ 2 * (len_of l + len_of r)

  module _ (i : ℕ) (l r : Tree) (offset len : ℕ) (h : IsHeld arena (branch i l r))
      (n : len_of l + len_of r ≤ u64_max) (pos : 0 < len)
      (within : offset + len ≤ len_of l + len_of r) where
    size_l : len_of l ≡ length (content l)
    size_l = len_of-eq l

    passes_both :
        offset < len_of l → 0 < len - min len (len_of l - offset) → PassesOn l r offset len
    passes_both inside more = record {
      entries =
          (l, offset, min len (len_of l - offset)) ∷ (r, 0, len - min len (len_of l - offset)) ∷ [];
      is_visit =
          unfold visit_branch in
          rw (
            lt→ltb offset (len_of l) inside,
            lt→ltb 0 (min len (len_of l - offset)) (omega arith),
            lt→ltb 0 (len - min len (len_of l - offset)) more,
          );
      valid = (
        IsHeld-left h,
        omega arith,
        omega arith,
        omega arith,
        (IsHeld-right h, omega arith, more, omega arith, tt),
      );
      same_bytes =
          ap (λ b. take (min len (len_of l - offset)) (drop offset (content l)) ++ b)
            (append-nil (take (len - min len (len_of l - offset)) (content r)))
          ∙ ap
              (λ k.
                take (min len (k - offset)) (drop offset (content l))
                ++ take (len - min len (k - offset)) (content r))
              size_l
          ∙ sym (take-drop-append (content l) (content r) offset len (omega (arith, size_l)));
      cheaper = omega (arith, len_of-pos l h.balanced.3, len_of-pos r h.balanced.4);
    }

    passes_left :
        offset < len_of l → len - min len (len_of l - offset) ≤ 0 → PassesOn l r offset len
    passes_left inside none_left = record {
      entries = (l, offset, min len (len_of l - offset)) ∷ [];
      is_visit =
          unfold visit_branch in
          rw (
            lt→ltb offset (len_of l) inside,
            lt→ltb 0 (min len (len_of l - offset)) (omega arith),
            le→ltb 0 (len - min len (len_of l - offset)) none_left,
          );
      valid = (IsHeld-left h, omega arith, omega arith, omega arith, tt);
      same_bytes =
          ap
            (λ k.
              take (min len (len_of l - offset)) (drop offset (content l)) ++ take k (content r))
            (let z : zero ≡ len - min len (len_of l - offset) = omega arith in z)
          ∙ ap
              (λ k.
                take (min len (k - offset)) (drop offset (content l))
                ++ take (len - min len (k - offset)) (content r))
              size_l
          ∙ sym (take-drop-append (content l) (content r) offset len (omega (arith, size_l)));
      cheaper = omega (arith, len_of-pos l h.balanced.3, len_of-pos r h.balanced.4);
    }

    passes_right : len_of l ≤ offset → PassesOn l r offset len
    passes_right beyond = record {
      entries = (r, offset - len_of l, len) ∷ [];
      is_visit = unfold visit_branch in rw (le→ltb offset (len_of l) beyond);
      valid = (IsHeld-right h, omega arith, pos, omega arith, tt);
      same_bytes =
          append-nil (take len (drop (offset - len_of l) (content r)))
          ∙ ap (take len) (
              sym (drop-append_right (offset - len_of l) (content l) (content r))
              ∙ ap (λ k. drop k (content l ++ content r))
                  (let e : length (content l) + (offset - len_of l) ≡ offset =
                      omega (arith, size_l) in
                    e));
      cheaper = omega (arith, len_of-pos l h.balanced.3, len_of-pos r h.balanced.4);
    }

    passes_on : PassesOn l r offset len
    passes_on = elim (Bool-cases (ltb offset (len_of l))) [
      | inr e ↦ passes_right (ltb→le _ _ e)
      | inl e ↦ elim (Bool-cases (ltb 0 (len - min len (len_of l - offset)))) [
        | inl f ↦ passes_both (ltb→lt _ _ e) (ltb→lt _ _ f)
        | inr f ↦ passes_left (ltb→lt _ _ e) (ltb→le _ _ f)
      ]
    ]

  -- With two visits for each byte of the trees on the stack, the loop ends and has appended the
  -- bytes of the ranges in order.
  pub read_loop_held :
      (fuel : ℕ) (es : List Entry) (visited : ℕ) (output : List ℕ)
      → AllValid arena es
      → visits_of es ≤ fuel
      → (count : ℕ) × (read_loop fuel arena (pending arena es) visited output
          ≡ ok (output ++ bytes_of es, count))
  unfolding read_loop visit_node
  read_loop_held fuel [] visited output valid enough =
      (visited, ap (λ b. ok (b, visited)) (sym (append-nil output)))
  read_loop_held zero ((t, offset, len) ∷ rest) visited output valid enough =
      absurd (omega (arith, len_of-pos t valid.0.balanced))
  read_loop_held (suc fuel) ((leaf i start bytes, offset, len) ∷ rest) visited output valid enough =
      let found =
        visit_held arena (leaf i start bytes) offset len valid.0 valid.1
        ∙ visit_leaf_held arena i start bytes offset len valid.0 valid.3 in
      let (count, e) =
        read_loop_held fuel rest (saturating_add visited 1) (output ++ take len (drop offset bytes))
          valid.4 (omega (arith, len_of-pos (leaf i start bytes) valid.0.balanced)) in
      (
        count,
        rw (found, read_loop)
            (e
              ∙ ap (λ b. ok (b, count))
                  (append_assoc output (take len (drop offset bytes)) (bytes_of rest))),
      )
  read_loop_held (suc fuel) ((branch i l r, offset, len) ∷ rest) visited output valid enough =
      let p = passes_on i l r offset len valid.0 valid.1 valid.2 valid.3 in
      let found = visit_held arena (branch i l r) offset len valid.0 valid.1 ∙ ap ok p.is_visit in
      let (count, e) =
        read_loop_held fuel (p.entries ++ rest) (saturating_add visited 1) output
          (AllValid-append p.entries rest p.valid valid.4)
          (omega (arith, visits_of-append p.entries rest, p.cheaper)) in
      (
        count,
        rw (found, read_loop)
            (ap (λ stack. read_loop fuel arena stack (saturating_add visited 1) output)
                (sym (pending-append p.entries rest))
              ∙ e
              ∙ ap (λ b. ok (output ++ b, count))
                  (bytes_of-append p.entries rest ∙ ap (λ b. b ++ bytes_of rest) p.same_bytes)),
      )
