-- ===== src/Avl/Sides.antt =====
-- The two sides of a cut as optional trees, and the joins of `split_on` on its way up.
use tulya_checkpoint_store.Prelude.{
  ℕ, ◌+◌, ◌*◌, ◌≤◌, ◌≡◌, refl, sym, ap, ◌∙◌, max, Option, none, some, List, [], ◌++◌, arith, length,
  take, drop, u64_max, append-nil, take_all, drop_all, take-append_left, drop-append_left,
}
use tulya_checkpoint_store.Format.Records.{Sha256, RootRecord, none_node, max_leaf_payload_bytes}
use tulya_checkpoint_store.Avl.Arena.{Arena}
use tulya_checkpoint_store.Avl.Action.{State}
use tulya_checkpoint_store.Avl.Edit.{join_near_right, join_left_near}
use tulya_checkpoint_store.Avl.Tree.{
  Tree, branch, len_of, height_of, root_of, content, len_of-eq, Grows,
}
use tulya_checkpoint_store.Avl.Runs.{Runs, Runs-pure, Grows-refl, Grows-trans, Grows-weaken}
use tulya_checkpoint_store.Avl.Alloc.{Yields}
use tulya_checkpoint_store.Avl.Pieces.{IsHeld, IsHeld-Grows, IsHeld-left, IsHeld-right, Runs-settle}
use tulya_checkpoint_store.Avl.Concat.{concat-Runs}

abbrev pub content? : Option Tree → List ℕ
content? none = []
content? (some t) = content t

abbrev pub height? : Option Tree → ℕ
height? none = 0
height? (some t) = height_of t

module _ ⦃sha : Sha256⦄ where
  abbrev pub root? : Option Tree → Option RootRecord
  root? none = none
  root? (some t) = some (root_of t)

  abbrev pub IsHeld? : Arena → Option Tree → Type 0
  IsHeld? arena none = Unit
  IsHeld? arena (some t) = IsHeld arena t

  pub IsHeld?-Grows :
      {a b : Arena} {n p : ℕ} → Grows a b n p → (t : Option Tree) → IsHeld? a t → IsHeld? b t
  IsHeld?-Grows g none h = tt
  IsHeld?-Grows g (some t) h = IsHeld-Grows g t h

  -- An optional root: that of a held tree with these bytes, or none for no bytes.
  pub record YieldsOption (s : State) (node_count byte_count : ℕ) (bytes : List ℕ) (high : ℕ)
      (root : Option RootRecord) (after : State) : Type 0 where
    pub tree : Option Tree
    pub is_root : root ≡ root? tree
    pub held : IsHeld? after.arena tree
    pub bytes_eq : content? tree ≡ bytes
    pub not_high : height? tree ≤ high
    pub grows : Grows s.arena after.arena node_count byte_count

  -- The two sides of a cut.
  pub record Splits (s : State) (node_count byte_count offset : ℕ) (t : Tree)
      (sides : Option RootRecord × Option RootRecord) (after : State) : Type 0 where
    pub left : Option Tree
    pub right : Option Tree
    pub are_roots : sides ≡ (root? left, root? right)
    pub left_held : IsHeld? after.arena left
    pub right_held : IsHeld? after.arena right
    pub left_bytes : content? left ≡ take offset (content t)
    pub right_bytes : content? right ≡ drop offset (content t)
    pub left_not_high : height? left ≤ height_of t
    pub right_not_high : height? right ≤ height_of t
    pub grows : Grows s.arena after.arena node_count byte_count

  -- The same sides, counted from an earlier state with the same arena, and under a larger bound.
  pub Splits-cheaper :
      {s v u : State} {n m p offset : ℕ} {t : Tree} {sides : Option RootRecord × Option RootRecord}
      → Grows s.arena v.arena 0 0
      → n ≤ m
      → Splits v n p offset t sides u
      → Splits s m p offset t sides u
  Splits-cheaper g le c = record {
    left = c.left;
    right = c.right;
    are_roots = c.are_roots;
    left_held = c.left_held;
    right_held = c.right_held;
    left_bytes = c.left_bytes;
    right_bytes = c.right_bytes;
    left_not_high = c.left_not_high;
    right_not_high = c.right_not_high;
    grows = Grows-weaken (omega arith) (omega arith) (Grows-trans g c.grows);
  }

  -- The cuts that allocate nothing: before the first byte, after the last, between two children.
  pub at_start :
      (t : Tree) (s : State) (offset : ℕ)
      → offset ≡ 0
      → IsHeld s.arena t
      → Splits s 0 max_leaf_payload_bytes offset t (none, some (root_of t)) s
  at_start t s offset e h = rw e (record {
    left = none;
    right = some t;
    are_roots = refl;
    left_held = tt;
    right_held = h;
    left_bytes = refl;
    right_bytes = refl;
    left_not_high = omega arith;
    right_not_high = omega arith;
    grows = Grows-weaken (omega arith) (omega arith) (Grows-refl s.arena);
  })

  pub at_end :
      (t : Tree) (s : State) (offset : ℕ)
      → offset ≡ len_of t
      → IsHeld s.arena t
      → Splits s 0 max_leaf_payload_bytes offset t (some (root_of t), none) s
  at_end t s offset e h = record {
    left = some t;
    right = none;
    are_roots = refl;
    left_held = h;
    right_held = tt;
    left_bytes = sym (take_all offset (content t) (omega (arith, len_of-eq t)));
    right_bytes = sym (drop_all offset (content t) (omega (arith, len_of-eq t)));
    left_not_high = omega arith;
    right_not_high = omega arith;
    grows = Grows-weaken (omega arith) (omega arith) (Grows-refl s.arena);
  }

  pub between :
      (i : ℕ) (l r : Tree) (s : State) (offset : ℕ)
      → offset ≡ len_of l
      → IsHeld s.arena (branch i l r)
      → Splits s 0 max_leaf_payload_bytes offset
          (branch i l r)
          (some (root_of l), some (root_of r))
          s
  between i l r s offset e h =
      let size : offset ≡ length (content l) = e ∙ len_of-eq l in
      record {
        left = some l;
        right = some r;
        are_roots = refl;
        left_held = IsHeld-left h;
        right_held = IsHeld-right h;
        left_bytes = sym (
            take-append_left offset (content l) (content r) (omega arith)
            ∙ take_all offset (content l) (omega arith));
        right_bytes = sym (
            drop-append_left offset (content l) (content r) (omega arith)
            ∙ ap (λ b. b ++ content r) (drop_all offset (content l) (omega arith)));
        left_not_high = omega arith;
        right_not_high = omega arith;
        grows = Grows-weaken (omega arith) (omega arith) (Grows-refl s.arena);
      }

  -- The near part of a split child is joined to the other child.
  pub join_near_right-Runs :
      (near : Option Tree) (right : Tree) (s : State)
      → IsHeld? s.arena near
      → IsHeld s.arena right
      → length (content? near) + len_of right ≤ u64_max
      → length s.arena.nodes + 3 * (height? near + height_of right) ≤ none_node
      → Runs (join_near_right (root? near) (root_of right)) s (
          Yields s
            (3 * (height? near + height_of right))
            0
            (content? near ++ content right)
            0
            (max (height? near) (height_of right) + 1))
  unfolding join_near_right
  join_near_right-Runs none right s hn hr n room = Runs-pure (root_of right) s (record {
    tree = right;
    is_root = refl;
    balanced = hr.balanced;
    stored = hr.stored;
    bytes_eq = refl;
    not_low = omega arith;
    not_high = omega arith;
    grows = Grows-weaken (omega arith) (omega arith) (Grows-refl s.arena);
  })
  join_near_right-Runs (some near) right s hn hr n room =
      Runs-settle _ (Grows-refl s.arena) refl (omega arith) (omega arith) (omega arith)
        (omega arith) (concat-Runs near right s hn hr (omega (arith, len_of-eq near)) room)

  pub join_left_near-Runs :
      (left : Tree) (near : Option Tree) (s : State)
      → IsHeld s.arena left
      → IsHeld? s.arena near
      → len_of left + length (content? near) ≤ u64_max
      → length s.arena.nodes + 3 * (height_of left + height? near) ≤ none_node
      → Runs (join_left_near (root_of left) (root? near)) s (
          Yields s
            (3 * (height_of left + height? near))
            0
            (content left ++ content? near)
            0
            (max (height_of left) (height? near) + 1))
  unfolding join_left_near
  join_left_near-Runs left none s hl hn n room = Runs-pure (root_of left) s (record {
    tree = left;
    is_root = refl;
    balanced = hl.balanced;
    stored = hl.stored;
    bytes_eq = sym (append-nil (content left));
    not_low = omega arith;
    not_high = omega arith;
    grows = Grows-weaken (omega arith) (omega arith) (Grows-refl s.arena);
  })
  join_left_near-Runs left (some near) s hl hn n room =
      Runs-settle _ (Grows-refl s.arena) refl (omega arith) (omega arith) (omega arith)
        (omega arith) (concat-Runs left near s hl hn (omega (arith, len_of-eq near)) room)
