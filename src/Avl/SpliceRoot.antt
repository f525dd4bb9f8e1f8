-- ===== src/Avl/SpliceRoot.antt =====
-- The edit of `splice_inner_on`: cut at the offset, drop the deleted range, join with the insertion.
use tulya_checkpoint_store.Prelude.{
  ℕ, ◌+◌, ◌-◌, ◌*◌, ◌≤◌, ◌≡◌, refl, sym, ap, ◌∙◌, inl, inr, Bool-cases, ==_iff, List, [], ◌++◌,
  Option, none, some, arith, length, take, drop, drop-drop, drop_all, u64_max, ◌==◌, append-nil,
  append_assoc, length-append, length-take, length-drop,
}
use tulya_checkpoint_store.Format.Records.{Sha256, RootRecord, none_node, max_leaf_payload_bytes}
use tulya_checkpoint_store.Avl.Arena.{Arena}
use tulya_checkpoint_store.Avl.Action.{State}
use tulya_checkpoint_store.Avl.Edit.{concat_optional}
use tulya_checkpoint_store.Avl.Splice.{right_of_deleted, splice_root}
use tulya_checkpoint_store.Avl.Tree.{Tree, content, len_of, root_of, len_of-eq, Grows}
use tulya_checkpoint_store.Avl.Height.{max_height, height_of-le}
use tulya_checkpoint_store.Avl.Runs.{
  Runs, Runs-bind, Runs-pure, Runs-imp, Grows-refl, Grows-trans, Grows-weaken, Grows-node_count,
  Grows-byte_count,
}
use tulya_checkpoint_store.Avl.Pieces.{IsHeld, Yields-IsHeld}
use tulya_checkpoint_store.Avl.Concat.{concat-Runs}
use tulya_checkpoint_store.Avl.Sides.{
  content?, height?, root?, IsHeld?, IsHeld?-Grows, YieldsOption,
}
use tulya_checkpoint_store.Avl.Cuts.{split_cost}
use tulya_checkpoint_store.Avl.Split.{split-Runs}

-- The bytes of the four parts, joined.
edited_bytes :
    (k n : ℕ) (c m : List ℕ) {l r d e : List ℕ}
    → l ≡ take k c
    → r ≡ drop k c
    → d ≡ drop n r
    → e ≡ l ++ m
    → e ++ d ≡ take k c ++ (m ++ drop (k + n) c)
edited_bytes k n c m {l} {r} {d} {e} lp rp dp ep =
    let p : e ++ d ≡ (take k c ++ m) ++ drop n (drop k c) = cc in
    p
    ∙ append_assoc (take k c) m (drop n (drop k c))
    ∙ ap (λ b. take k c ++ (m ++ b)) (drop-drop n k c)

module _ ⦃sha : Sha256⦄ where
  pub YieldsOption-after :
      {s t u : State} {m q n p k c : ℕ} {bytes bytes' : List ℕ} {high : ℕ}
      {root : Option RootRecord}
      → Grows s.arena t.arena m q
      → bytes ≡ bytes'
      → m + n ≤ k
      → q + p ≤ c
      → YieldsOption t n p bytes high root u
      → YieldsOption s k c bytes' high root u
  YieldsOption-after g e few small y = record {
    tree = y.tree;
    is_root = y.is_root;
    held = y.held;
    bytes_eq = y.bytes_eq ∙ e;
    not_high = y.not_high;
    grows = Grows-weaken few small (Grows-trans g y.grows);
  }

  -- What is at hand already.
  same_tree :
      (t : Option Tree) (s : State)
      → IsHeld? s.arena t
      → height? t ≤ max_height
      → YieldsOption s 0 0 (content? t) max_height (root? t) s
  same_tree t s h low = record {
    tree = t;
    is_root = refl;
    held = h;
    bytes_eq = refl;
    not_high = low;
    grows = Grows-refl s.arena;
  }

  height?-le :
      (a : Arena) (t : Option Tree)
      → IsHeld? a t
      → length (content? t) ≤ u64_max
      → height? t ≤ max_height
  height?-le a none h n = omega arith
  height?-le a (some t) h n = height_of-le t h.balanced (omega (arith, len_of-eq t))

  pub concat_optional-Runs :
      (l r : Option Tree) (s : State)
      → IsHeld? s.arena l
      → IsHeld? s.arena r
      → length (content? l) + length (content? r) ≤ u64_max
      → length s.arena.nodes + 768 ≤ none_node
      → Runs
          (concat_optional (root? l) (root? r))
          s
          (YieldsOption s 768 0 (content? l ++ content? r) max_height)
  unfolding concat_optional
  concat_optional-Runs none none s hl hr n room = Runs-pure none s (
      YieldsOption-after (Grows-refl s.arena) refl (omega arith) (omega arith)
        (same_tree none s tt (omega arith)))
  concat_optional-Runs none (some r) s hl hr n room = Runs-pure _ s (
      YieldsOption-after (Grows-refl s.arena) refl (omega arith) (omega arith)
        (same_tree (some r) s hr (height?-le s.arena (some r) hr (omega arith))))
  concat_optional-Runs (some l) none s hl hr n room = Runs-pure _ s (
      YieldsOption-after (Grows-refl s.arena) (sym (append-nil (content l))) (omega arith)
        (omega arith) (same_tree (some l) s hl (height?-le s.arena (some l) hl (omega arith))))
  concat_optional-Runs (some l) (some r) s hl hr n room =
      let low_l = height?-le s.arena (some l) hl (omega arith) in
      let low_r = height?-le s.arena (some r) hr (omega arith) in
      Runs-bind _ _ s
        (concat-Runs l r s hl hr (omega (arith, len_of-eq l, len_of-eq r)) (omega arith))
        (λ root t y. Runs-pure _ t (record {
          tree = some y.tree;
          is_root = cc (y.is_root);
          held = Yields-IsHeld y;
          bytes_eq = y.bytes_eq;
          not_high = height_of-le y.tree y.balanced (
              omega (
                arith,
                len_of-eq y.tree,
                ap length y.bytes_eq,
                length-append {0} (content l) (content r),
              ));
          grows = Grows-weaken (omega arith) (omega arith) y.grows;
        }))

  right_of_deleted-Runs :
      (mid : Option Tree) (delete_len : ℕ) (s : State)
      → IsHeld? s.arena mid
      → delete_len ≤ length (content? mid)
      → length (content? mid) ≤ u64_max
      → length s.arena.payload + max_leaf_payload_bytes ≤ u64_max
      → length s.arena.nodes + split_cost max_height ≤ none_node
      → Runs (right_of_deleted (root? mid) delete_len) s (
          YieldsOption s
            (split_cost max_height)
            max_leaf_payload_bytes
            (drop delete_len (content? mid))
            max_height)
  unfolding right_of_deleted
  right_of_deleted-Runs none delete_len s h within n small room = Runs-pure none s (
      YieldsOption-after (Grows-refl s.arena) (sym (drop_all delete_len [] (omega arith)))
        (omega arith) (omega arith) (same_tree none s tt (omega arith)))
  right_of_deleted-Runs (some t) delete_len s h within n small room =
      let low = height?-le s.arena (some t) h n in
      elim (Bool-cases (delete_len == 0)) [
        | inl e ↦ rw e (
            Runs-pure _ s (
              YieldsOption-after (Grows-refl s.arena)
                (ap (λ k. drop k (content t)) (sym ((==_iff delete_len 0).0 e))) (omega arith)
                (omega arith) (same_tree (some t) s h low)))
        | inr e ↦ rw e (
            Runs-bind _ _ s
              (split-Runs t s delete_len h (omega (arith, len_of-eq t)) (omega (arith, len_of-eq t))
                small (omega arith))
              (λ sides u c. rw (c.are_roots) (
                Runs-pure _ u (record {
                  tree = c.right;
                  is_root = refl;
                  held = c.right_held;
                  bytes_eq = c.right_bytes;
                  not_high = omega (arith, c.right_not_high);
                  grows = Grows-weaken (omega arith) (omega arith) c.grows;
                }))))
      ]

  -- The nodes that an edit of a parent allocates at most.
  abbrev pub edit_cost : ℕ
  edit_cost = 2 * split_cost max_height + 2 * 768

  pub splice_root-Runs :
      (middle : Option Tree) (t : Tree) (offset delete_len : ℕ) (s : State)
      → IsHeld? s.arena middle
      → IsHeld s.arena t
      → offset + delete_len ≤ len_of t
      → len_of t ≤ u64_max
      → len_of t - delete_len + length (content? middle) ≤ u64_max
      → length s.arena.payload + 2 * max_leaf_payload_bytes ≤ u64_max
      → length s.arena.nodes + edit_cost ≤ none_node
      → Runs (splice_root (root? middle) (some (root_of t)) offset delete_len) s (
          YieldsOption s edit_cost
            (2 * max_leaf_payload_bytes)
            (take offset (content t) ++ (content? middle ++ drop (offset + delete_len) (content t)))
            max_height)
  unfolding splice_root
  splice_root-Runs middle t offset delete_len s hm ht within n fits small room =
      let size = len_of-eq t in
      let low = height_of-le t ht.balanced n in
      let before = length-take {0} offset (content t) in
      let after = length-drop {0} offset (content t) in
      let end = length-drop {0} delete_len (drop offset (content t)) in
      Runs-bind _ _ s (split-Runs t s offset ht (omega arith) n (omega arith) (omega arith))
        (λ sides t₁ c. rw (c.are_roots) (
          Runs-bind _ _ t₁
            (right_of_deleted-Runs c.right delete_len t₁ c.right_held
              (omega (arith, ap length c.right_bytes, after))
              (omega (arith, ap length c.right_bytes, after))
              (omega (arith, Grows-byte_count c.grows)) (omega (arith, Grows-node_count c.grows)))
            (λ right t₂ d. rw (d.is_root) (
              Runs-bind _ _ t₂
                (concat_optional-Runs c.left middle t₂ (IsHeld?-Grows d.grows c.left c.left_held)
                  (IsHeld?-Grows d.grows middle (IsHeld?-Grows c.grows middle hm))
                  (omega (arith, ap length c.left_bytes, before))
                  (omega (arith, Grows-node_count c.grows, Grows-node_count d.grows)))
                (λ combined t₃ e. rw (e.is_root) (
                  Runs-imp _ t₃
                    (concat_optional-Runs e.tree d.tree t₃ e.held
                      (IsHeld?-Grows e.grows d.tree d.held)
                      (omega (
                        arith,
                        ap length e.bytes_eq,
                        length-append {0} (content? c.left) (content? middle),
                        ap length c.left_bytes,
                        ap length d.bytes_eq,
                        length-drop {0} delete_len (content? c.right),
                        ap length c.right_bytes,
                        before,
                        after,
                      ))
                      (omega (
                        arith,
                        Grows-node_count c.grows,
                        Grows-node_count d.grows,
                        Grows-node_count e.grows,
                      )))
                    (λ root t₄ f.
                      YieldsOption-after (Grows-trans c.grows (Grows-trans d.grows e.grows))
                        (edited_bytes offset delete_len (content t) (content? middle) c.left_bytes
                          c.right_bytes d.bytes_eq e.bytes_eq)
                        (omega arith) (omega arith) f)))))))
