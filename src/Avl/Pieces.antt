-- ===== src/Avl/Pieces.antt =====
-- Trees that the arena holds, and the shapes that the rotations build from them.
use tulya_checkpoint_store.Prelude.{
  ℕ, ◌+◌, ◌≤◌, ◌<◌, ◌≡◌, ap, ◌∙◌, max, List, ◌++◌, arith, length, u64_max, length-append,
}
use tulya_checkpoint_store.Format.Records.{Sha256, RootRecord, none_node}
use tulya_checkpoint_store.Avl.Arena.{Arena}
use tulya_checkpoint_store.Avl.Action.{State, Action, ◌>>=◌}
use tulya_checkpoint_store.Avl.Edit.{allocate_branch}
use tulya_checkpoint_store.Avl.Tree.{
  Tree, branch, len_of, height_of, root_of, content, IsBalanced, Stored, Grows, len_of-eq,
}
use tulya_checkpoint_store.Avl.Runs.{
  Runs, Runs-bind, Runs-imp, Stored-Grows, Grows-trans, Grows-weaken, Grows-node_count,
}
use tulya_checkpoint_store.Avl.Alloc.{Yields, allocate_branch-Runs}

pub len_of_join :
    (t a b : Tree) → content t ≡ content a ++ content b → len_of t ≡ len_of a + len_of b
len_of_join t a b e = omega (
  arith,
  len_of-eq t,
  len_of-eq a,
  len_of-eq b,
  ap length e,
  length-append {0} (content a) (content b),
)

module _ ⦃sha : Sha256⦄ where
  -- A balanced tree that the arena holds.
  pub record IsHeld (arena : Arena) (t : Tree) : Type 0 where
    pub balanced : IsBalanced t
    pub stored : Stored arena t

  pub IsHeld-Grows : {a b : Arena} {n p : ℕ} → Grows a b n p → (t : Tree) → IsHeld a t → IsHeld b t
  IsHeld-Grows g t h = record { balanced = h.balanced; stored = Stored-Grows g t h.stored }

  pub IsHeld-left : {a : Arena} {i : ℕ} {l r : Tree} → IsHeld a (branch i l r) → IsHeld a l
  IsHeld-left h = record { balanced = h.balanced.3; stored = h.stored.1 }

  pub IsHeld-right : {a : Arena} {i : ℕ} {l r : Tree} → IsHeld a (branch i l r) → IsHeld a r
  IsHeld-right h = record { balanced = h.balanced.4; stored = h.stored.2 }

  pub Yields-IsHeld :
      {s u : State} {n p : ℕ} {bytes : List ℕ} {low high : ℕ} {root : RootRecord}
      (y : Yields s n p bytes low high root u)
      → IsHeld u.arena y.tree
  Yields-IsHeld y = record { balanced = y.balanced; stored = y.stored }

  module _ {s t : State} {m q n p : ℕ} {bytes : List ℕ} {low high : ℕ} {root : RootRecord}
      {u : State} where
    -- What a later step yields, counted from an earlier state.
    pub Yields-after :
        {k c : ℕ} {bytes' : List ℕ} {low' high' : ℕ}
        → Grows s.arena t.arena m q
        → bytes ≡ bytes'
        → low' ≤ low
        → high ≤ high'
        → m + n ≤ k
        → q + p ≤ c
        → Yields t n p bytes low high root u
        → Yields s k c bytes' low' high' root u
    Yields-after g e lo hi few small y = record {
      tree = y.tree;
      is_root = y.is_root;
      balanced = y.balanced;
      stored = y.stored;
      bytes_eq = y.bytes_eq ∙ e;
      not_low = omega (arith, y.not_low);
      not_high = omega (arith, y.not_high);
      grows = Grows-weaken few small (Grows-trans g y.grows);
    }

  -- The same, about the action that ends with that step.
  pub Runs-settle :
      {s t u : State} {m q n p k c : ℕ} {bytes bytes' : List ℕ} {low high low' high' : ℕ}
      (x : Action RootRecord)
      → Grows s.arena t.arena m q
      → bytes ≡ bytes'
      → low' ≤ low
      → high ≤ high'
      → m + n ≤ k
      → q + p ≤ c
      → Runs x u (Yields t n p bytes low high)
      → Runs x u (Yields s k c bytes' low' high')
  Runs-settle {u = u} x g e lo hi few small r =
      Runs-imp x u r (λ root v y. Yields-after g e lo hi few small y)

  -- `allocate_branch` on held trees, as one hypothesis for each of them.
  pub branch-Runs :
      (l r : Tree) (s : State)
      → IsHeld s.arena l
      → IsHeld s.arena r
      → height_of l ≤ height_of r + 1
      → height_of r ≤ height_of l + 1
      → len_of l + len_of r ≤ u64_max
      → length s.arena.nodes < none_node
      → Runs (allocate_branch (root_of l) (root_of r)) s (
          Yields s 1 0
            (content l ++ content r)
            (max (height_of l) (height_of r) + 1)
            (max (height_of l) (height_of r) + 1))
  branch-Runs l r s hl hr = allocate_branch-Runs l r s hl.balanced hr.balanced hl.stored hr.stored

  -- a · (b · c)
  pub right_nested-Runs :
      (a b c : Tree) (s : State)
      → IsHeld s.arena a
      → IsHeld s.arena b
      → IsHeld s.arena c
      → height_of b ≤ height_of c + 1
      → height_of c ≤ height_of b + 1
      → height_of a ≤ max (height_of b) (height_of c) + 2
      → max (height_of b) (height_of c) ≤ height_of a
      → len_of a + (len_of b + len_of c) ≤ u64_max
      → length s.arena.nodes + 2 ≤ none_node
      → Runs (allocate_branch (root_of b) (root_of c) >>= λ x. allocate_branch (root_of a) x) s (
          Yields s 2 0
            (content a ++ (content b ++ content c))
            (max (height_of a) (max (height_of b) (height_of c) + 1) + 1)
            (max (height_of a) (max (height_of b) (height_of c) + 1) + 1))
  right_nested-Runs a b c s ha hb hc bc cb lo hi n room =
      Runs-bind _ _ s (branch-Runs b c s hb hc bc cb (omega arith) (omega arith)) (λ x s' y.
        rw (y.is_root) (
          Runs-imp _ s'
            (branch-Runs a y.tree s' (IsHeld-Grows y.grows a ha) (Yields-IsHeld y)
              (omega (arith, y.not_low)) (omega (arith, y.not_high))
              (omega (arith, len_of_join y.tree b c y.bytes_eq))
              (omega (arith, Grows-node_count y.grows)))
            (λ root s'' z.
              Yields-after y.grows (ap (λ l. content a ++ l) y.bytes_eq)
                (omega (arith, y.not_low, y.not_high)) (omega (arith, y.not_low, y.not_high))
                (omega arith) (omega arith) z)))

  -- (a · b) · c
  pub left_nested-Runs :
      (a b c : Tree) (s : State)
      → IsHeld s.arena a
      → IsHeld s.arena b
      → IsHeld s.arena c
      → height_of a ≤ height_of b + 1
      → height_of b ≤ height_of a + 1
      → height_of c ≤ max (height_of a) (height_of b) + 2
      → max (height_of a) (height_of b) ≤ height_of c
      → (len_of a + len_of b) + len_of c ≤ u64_max
      → length s.arena.nodes + 2 ≤ none_node
      → Runs (allocate_branch (root_of a) (root_of b) >>= λ x. allocate_branch x (root_of c)) s (
          Yields s 2 0
            ((content a ++ content b) ++ content c)
            (max (max (height_of a) (height_of b) + 1) (height_of c) + 1)
            (max (max (height_of a) (height_of b) + 1) (height_of c) + 1))
  left_nested-Runs a b c s ha hb hc ab ba lo hi n room =
      Runs-bind _ _ s (branch-Runs a b s ha hb ab ba (omega arith) (omega arith)) (λ x s' y.
        rw (y.is_root) (
          Runs-imp _ s'
            (branch-Runs y.tree c s' (Yields-IsHeld y) (IsHeld-Grows y.grows c hc)
              (omega (arith, y.not_high)) (omega (arith, y.not_low))
              (omega (arith, len_of_join y.tree a b y.bytes_eq))
              (omega (arith, Grows-node_count y.grows)))
            (λ root s'' z.
              Yields-after y.grows (ap (λ l. l ++ content c) y.bytes_eq)
                (omega (arith, y.not_low, y.not_high)) (omega (arith, y.not_low, y.not_high))
                (omega arith) (omega arith) z)))

  -- (a · b) · (c · d)
  pub double-Runs :
      (a b c d : Tree) (s : State)
      → IsHeld s.arena a
      → IsHeld s.arena b
      → IsHeld s.arena c
      → IsHeld s.arena d
      → height_of a ≤ height_of b + 1
      → height_of b ≤ height_of a + 1
      → height_of c ≤ height_of d + 1
      → height_of d ≤ height_of c + 1
      → max (height_of a) (height_of b) ≡ max (height_of c) (height_of d)
      → (len_of a + len_of b) + (len_of c + len_of d) ≤ u64_max
      → length s.arena.nodes + 3 ≤ none_node
      → Runs
          (allocate_branch (root_of a) (root_of b) >>= λ x.
            allocate_branch (root_of c) (root_of d) >>= λ y. allocate_branch x y)
          s
          (Yields s 3 0
            ((content a ++ content b) ++ (content c ++ content d))
            (max (height_of a) (height_of b) + 2)
            (max (height_of a) (height_of b) + 2))
  double-Runs a b c d s ha hb hc hd ab ba cd dc level n room =
      Runs-bind _ _ s (branch-Runs a b s ha hb ab ba (omega arith) (omega arith)) (λ x s' y.
        rw (y.is_root) (
          Runs-imp _ s'
            (right_nested-Runs y.tree c d s' (Yields-IsHeld y) (IsHeld-Grows y.grows c hc)
              (IsHeld-Grows y.grows d hd) cd dc (omega (arith, y.not_high))
              (omega (arith, y.not_low)) (omega (arith, len_of_join y.tree a b y.bytes_eq))
              (omega (arith, Grows-node_count y.grows)))
            (λ root s'' z.
              Yields-after y.grows (ap (λ l. l ++ (content c ++ content d)) y.bytes_eq)
                (omega (arith, y.not_low, y.not_high)) (omega (arith, y.not_low, y.not_high))
                (omega arith) (omega arith) z)))
