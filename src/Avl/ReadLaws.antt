-- ===== src/Avl/ReadLaws.antt =====
-- `read_range` and `verify_root` on the root of a tree that the arena holds; reads across edits.
use tulya_checkpoint_store.Prelude
use tulya_checkpoint_store.Prelude.{
  ℕ, zero, suc, ◌+◌, ◌-◌, ◌*◌, ◌≤◌, ◌<◌, ◌≡◌, refl, sym, ap, ◌∙◌, min, true, false, inl, inr,
  Bool-cases, List, [], ◌∷◌, ◌++◌, Option, some, none, arith, length, take, drop, take_all, u64_max,
  ok, err, map_err, le→leb, le→ltb, lt→ltb, ltb, ◌==◌, ==_refl, ==_iff, length-take, length-drop,
  append-nil, saturating_add,
}
use tulya_checkpoint_store.Format.Records.{Sha256}
use tulya_checkpoint_store.Avl.Arena.{Arena}
use tulya_checkpoint_store.Avl.Read.{
  read_range_counted, read_range, verify_node, verify_root_counted,
}
use tulya_checkpoint_store.Avl.Tree.{
  Tree, leaf, branch, content, len_of, height_of, root_of, len_of-eq, height_of-pos,
}
use tulya_checkpoint_store.Avl.Held.{node_for_root_held, validate_held}
use tulya_checkpoint_store.Avl.Pieces.{IsHeld, IsHeld-left, IsHeld-right}
use tulya_checkpoint_store.Avl.ReadLoop.{read_loop_held}

module _ ⦃sha : Sha256⦄ where
  read_some :
      (arena : Arena) (t : Tree) (offset len : ℕ)
      → IsHeld arena t
      → len_of t ≤ u64_max
      → 0 < len
      → offset + len ≤ len_of t
      → read_range arena (root_of t) offset len ≡ ok (take len (drop offset (content t)))
  unfolding read_range read_range_counted
  read_some arena t offset len h n pos within =
      let bytes = take len (drop offset (content t)) in
      let size : length bytes ≡ len = omega (
        arith,
        len_of-eq t,
        length-take {0} len (drop offset (content t)),
        length-drop {0} offset (content t),
      ) in
      let (count, e) =
        read_loop_held arena (2 * len_of t) ((t, offset, len) ∷ []) 0 [] (h, n, pos, within, tt)
          (omega arith) in
      rw
        (
          node_for_root_held arena t h.balanced h.stored,
          le→leb (offset + len) u64_max (omega arith),
          le→ltb (len_of t) (offset + len) within,
          Prelude.ne→== len 0 (omega arith),
        )
        (rw (e ∙ ap (λ b. ok (b, count)) (append-nil bytes)) (rw (size, ==_refl len)))

  read_none :
      (arena : Arena) (t : Tree) (offset : ℕ)
      → IsHeld arena t
      → len_of t ≤ u64_max
      → offset + 0 ≤ len_of t
      → read_range arena (root_of t) offset 0 ≡ ok []
  unfolding read_range read_range_counted
  read_none arena t offset h n within = rw (
    node_for_root_held arena t h.balanced h.stored,
    le→leb (offset + 0) u64_max (omega arith),
    le→ltb (len_of t) (offset + 0) within,
  )

  -- A range within the version reads as exactly those bytes of it.
  pub read_range-content :
      (arena : Arena) (t : Tree) (offset len : ℕ)
      → IsHeld arena t
      → len_of t ≤ u64_max
      → offset + len ≤ len_of t
      → read_range arena (root_of t) offset len ≡ ok (take len (drop offset (content t)))
  read_range-content arena t offset zero h n within = read_none arena t offset h n within
  read_range-content arena t offset (suc len) h n within =
      read_some arena t offset (suc len) h n (omega arith) within

  -- The nodes of a tree.
  abbrev pub size_of : Tree → ℕ
  size_of (leaf i start bytes) = 1
  size_of (branch i l r) = 1 + size_of l + size_of r

  verify_node_held :
      (fuel : ℕ) (arena : Arena) (t : Tree) (visited : ℕ)
      → IsHeld arena t
      → len_of t ≤ u64_max
      → height_of t ≤ fuel
      → visited + size_of t ≤ u64_max
      → verify_node fuel arena (root_of t) visited ≡ ok (visited + size_of t)
  unfolding verify_node
  verify_node_held zero arena t visited h n enough small = absurd (omega (arith, height_of-pos t))
  verify_node_held (suc fuel) arena (leaf i start bytes) visited h n enough small =
      rw
        (
          node_for_root_held arena (leaf i start bytes) h.balanced h.stored,
          validate_held arena (leaf i start bytes) h.balanced h.stored n,
        )
        (ap ok (omega arith))
  verify_node_held (suc fuel) arena (branch i l r) visited h n enough small =
      let e : saturating_add visited 1 ≡ visited + 1 = omega arith in
      rw
        (
          node_for_root_held arena (branch i l r) h.balanced h.stored,
          validate_held arena (branch i l r) h.balanced h.stored n,
        )
        (rw
          (
            e,
            verify_node_held fuel arena l (visited + 1) (IsHeld-left h) (omega arith) (omega arith)
                (omega arith),
          )
          (verify_node_held fuel arena r (visited + 1 + size_of l) (IsHeld-right h) (omega arith)
              (omega arith) (omega arith)
            ∙ ap ok (omega arith)))

  -- Verification of a held root succeeds and counts every node of the version once.
  pub verify_root-size :
      (arena : Arena) (t : Tree)
      → IsHeld arena t
      → len_of t ≤ u64_max
      → size_of t ≤ u64_max
      → verify_root_counted arena (root_of t) ≡ ok (size_of t)
  unfolding verify_root_counted
  verify_root-size arena t h n small =
      verify_node_held (suc (height_of t)) arena t 0 h n (omega arith) (omega arith)
      ∙ ap ok (omega arith)

  -- All of a version.
  pub read_all :
      (arena : Arena) (t : Tree)
      → IsHeld arena t
      → len_of t ≤ u64_max
      → read_range arena (root_of t) 0 (len_of t) ≡ ok (content t)
  read_all arena t h n =
      read_range-content arena t 0 (len_of t) h n (omega arith)
      ∙ ap ok (take_all (len_of t) (content t) (omega (arith, len_of-eq t)))
