-- ===== src/Avl/Alloc.antt =====
-- Allocation: a fresh leaf or branch extends the arena by one node, and the arena holds its tree.
use mathlib.Core.Path.{subst}
use tulya_checkpoint_store.Prelude
use tulya_checkpoint_store.Prelude.{
  ℕ, suc, ◌+◌, ◌-◌, ◌*◌, ◌≤◌, ◌<◌, ◌≡◌, refl, ap, sym, ◌∙◌, max, List, [], ◌∷◌, ◌++◌, some, ok,
  map_err, arith, length, u64_max, try_from, slice_appended, append-nil, get_elem?-append_self,
  true, false,
}
use tulya_checkpoint_store.Format.Records.{Sha256, RootRecord, none_node, max_leaf_payload_bytes}
use tulya_checkpoint_store.Format.Build
use tulya_checkpoint_store.Avl.Arena.{
  Arena, ArenaNode, arena_push_node, arena_append_payload, record_of, format,
}
use tulya_checkpoint_store.Avl.Action.{State, Action, inspect, ◌>>=◌}
use tulya_checkpoint_store.Avl.Edit.{
  push_node, append_payload, allocate_node, allocate_leaf, allocate_branch, branch_children,
  expect_branch,
}
use tulya_checkpoint_store.Avl.Tree.{
  Tree, leaf, branch, id_of, len_of, height_of, root_of, node_of, content, IsBalanced, id_of-lt,
  Stored, Grows,
}
use tulya_checkpoint_store.Avl.Held.{
  leaf_succeeds, branch_succeeds, root_of_new, node_for_root_held,
}
use tulya_checkpoint_store.Avl.Runs.{
  Runs, Runs-bind, Runs-reading, Runs-lift, Runs-pure, Runs-inspect, Runs-writing, Runs-imp,
  Stored-Grows,
}

-- A checked conversion of a length that fits.
pub try_from_fits :
    {E : Type 0} (greatest n : ℕ) (e : E) → n ≤ greatest → try_from greatest n e ≡ ok n
try_from_fits greatest n e h = rw (Prelude.le→leb n greatest h)

module _ ⦃sha : Sha256⦄ where
  -- The result is the root of a balanced tree that the arena now holds, with these bytes and a
  -- height in this range; the arena grew by so many nodes and bytes at most.
  pub record Yields (s : State) (node_count byte_count : ℕ) (bytes : List ℕ) (low high : ℕ)
      (root : RootRecord) (after : State) : Type 0 where
    pub tree : Tree
    pub is_root : root ≡ root_of tree
    pub balanced : IsBalanced tree
    pub stored : Stored after.arena tree
    pub bytes_eq : content tree ≡ bytes
    pub not_low : low ≤ height_of tree
    pub not_high : height_of tree ≤ high
    pub grows : Grows s.arena after.arena node_count byte_count

  push_node-Runs :
      (node : ArenaNode) (s : State)
      → length s.arena.nodes < none_node
      → Runs
          (push_node node)
          s
          (λ placed s'. (placed ≡ length s.arena.nodes) × (s'.arena ≡ arena_push_node node s.arena))
  unfolding push_node
  push_node-Runs node s h =
      Runs-reading _ _ s (try_from_fits u64_max (length s.arena.nodes) _ (omega arith))
        (Runs-writing _ _ s (Runs-pure _ _ (refl, refl)))

  allocate_node-Runs :
      (t : Tree) (s : State)
      → IsBalanced t
      → id_of t ≡ length s.arena.nodes
      → Runs
          (allocate_node (node_of t))
          s
          (λ root s'. (root ≡ root_of t) × (s'.arena ≡ arena_push_node (node_of t) s.arena))
  unfolding allocate_node
  allocate_node-Runs t s b e =
      Runs-reading _ _ s
        (try_from_fits u64_max (length s.arena.nodes) _ (omega (arith, id_of-lt t b)))
        (Runs-lift _ _ s
          (subst (λ i. map_err format (Build.from_node i (record_of (node_of t))) ≡ ok (root_of t))
            e (root_of_new t b))
          (Runs-bind _ _ s (push_node-Runs (node_of t) s (omega (arith, id_of-lt t b)))
            (λ placed s' p.
              Runs-lift _ _ s' (rw (p.0, Prelude.==_refl)) (Runs-pure _ _ (refl, p.1)))))

  -- Pushing a node, after some bytes: how the arena grew.
  pushed-Grows :
      (a b : Arena) (node : ArenaNode) (bytes : List ℕ)
      → b ≡ arena_push_node node (arena_append_payload bytes a)
      → Grows a b 1 (length bytes)
  unfolding arena_push_node arena_append_payload
  pushed-Grows a b node bytes e = record {
    new_nodes = node ∷ [];
    new_payload = bytes;
    nodes = ap (λ (x : Arena). x.nodes) e;
    payload = ap (λ (x : Arena). x.payload) e;
    few_nodes = omega arith;
    few_bytes = omega arith;
  }

  push_only : (a b : Arena) (node : ArenaNode) → b ≡ arena_push_node node a → Grows a b 1 0
  unfolding arena_push_node
  push_only a b node e = record {
    new_nodes = node ∷ [];
    new_payload = [];
    nodes = ap (λ (x : Arena). x.nodes) e;
    payload = ap (λ (x : Arena). x.payload) e ∙ sym (append-nil _);
    few_nodes = omega arith;
    few_bytes = omega arith;
  }

  append_nodes :
      (a b : Arena) (bytes : List ℕ)
      → b ≡ arena_append_payload bytes a
      → length a.nodes ≡ length b.nodes
  unfolding arena_append_payload
  append_nodes a b bytes e = ap (λ (x : Arena). length x.nodes) (sym e)

  leaf-Yields :
      (s s' : State) (bytes : List ℕ)
      → IsBalanced (leaf (length s.arena.nodes) (length s.arena.payload) bytes)
      → (root : RootRecord)
      → root ≡ root_of (leaf (length s.arena.nodes) (length s.arena.payload) bytes)
      → s'.arena
        ≡ arena_push_node
            (node_of (leaf (length s.arena.nodes) (length s.arena.payload) bytes))
            (arena_append_payload bytes s.arena)
      → Yields s 1 (length bytes) bytes 1 1 root s'
  unfolding arena_push_node arena_append_payload
  leaf-Yields s s' bytes b root e g = record {
    tree = leaf (length s.arena.nodes) (length s.arena.payload) bytes;
    is_root = e;
    balanced = b;
    stored = rw g (get_elem?-append_self s.arena.nodes _ [], slice_appended s.arena.payload bytes);
    bytes_eq = refl;
    not_low = omega arith;
    not_high = omega arith;
    grows = pushed-Grows s.arena s'.arena _ bytes g;
  }

  pub allocate_leaf-Runs :
      (bytes : List ℕ) (s : State)
      → 0 < length bytes
      → length bytes ≤ max_leaf_payload_bytes
      → length s.arena.payload + length bytes ≤ u64_max
      → length s.arena.nodes < none_node
      → Runs (allocate_leaf bytes) s (Yields s 1 (length bytes) bytes 1 1)
  unfolding allocate_leaf append_payload
  allocate_leaf-Runs bytes s pos short fits room =
      let offset : ℕ = length s.arena.payload in
      let t : Tree = leaf (length s.arena.nodes) offset bytes in
      let b : IsBalanced t = (room, pos, short, fits) in
      Runs-reading _ _ s (try_from_fits u64_max offset _ (omega arith)) (
        Runs-lift _ _ s (rw (leaf_succeeds (length s.arena.nodes) offset bytes b)) (
          Runs-bind
            {P = λ placed s'. (placed ≡ offset) × (s'.arena ≡ arena_append_payload bytes s.arena)} _
            _ s
            (Runs-reading _ _ s (try_from_fits u64_max offset _ (omega arith))
              (Runs-writing _ _ s (Runs-pure _ _ (refl, refl))))
            (λ placed s' p. Runs-lift _ _ s' (rw (p.0, Prelude.==_refl)) (
              Runs-imp _ s' (allocate_node-Runs t s' b (append_nodes s.arena s'.arena bytes p.1))
                (λ root s'' q.
                  leaf-Yields s s'' bytes b root q.0
                    (q.1 ∙ ap (arena_push_node (node_of t)) p.1))))))

  branch-Yields :
      (s s' : State) (l r : Tree)
      → IsBalanced (branch (length s.arena.nodes) l r)
      → Stored s.arena l
      → Stored s.arena r
      → (root : RootRecord) → root ≡ root_of (branch (length s.arena.nodes) l r)
      → s'.arena ≡ arena_push_node (node_of (branch (length s.arena.nodes) l r)) s.arena
      → Yields s 1 0
          (content l ++ content r)
          (max (height_of l) (height_of r) + 1)
          (max (height_of l) (height_of r) + 1)
          root
          s'
  branch-Yields s s' l r b hl hr root e g =
      let grown : Grows s.arena s'.arena 1 0 = push_only s.arena s'.arena _ g in
      record {
        tree = branch (length s.arena.nodes) l r;
        is_root = e;
        balanced = b;
        stored = (
          unfold arena_push_node in rw g (get_elem?-append_self s.arena.nodes _ []),
          Stored-Grows grown l hl,
          Stored-Grows grown r hr,
        );
        bytes_eq = refl;
        not_low = omega arith;
        not_high = omega arith;
        grows = grown;
      }

  pub allocate_branch-Runs :
      (l r : Tree) (s : State)
      → IsBalanced l
      → IsBalanced r
      → Stored s.arena l
      → Stored s.arena r
      → height_of l ≤ height_of r + 1
      → height_of r ≤ height_of l + 1
      → len_of l + len_of r ≤ u64_max
      → length s.arena.nodes < none_node
      → Runs (allocate_branch (root_of l) (root_of r)) s (
          Yields s 1 0
            (content l ++ content r)
            (max (height_of l) (height_of r) + 1)
            (max (height_of l) (height_of r) + 1))
  unfolding allocate_branch
  allocate_branch-Runs l r s bl br hl hr lo hi n room =
      let b : IsBalanced (branch (length s.arena.nodes) l r) = (room, lo, hi, bl, br) in
      Runs-inspect _ _ s (
        Runs-reading _ _ _ (node_for_root_held s.arena l bl hl) (
          Runs-reading _ _ _ (node_for_root_held s.arena r br hr) (
            Runs-lift _ _ _ (rw (branch_succeeds (length s.arena.nodes) l r b n)) (
              Runs-imp _ _ (allocate_node-Runs (branch (length s.arena.nodes) l r) _ b refl)
                (λ root s' q. branch-Yields s s' l r b hl hr root q.0 q.1)))))

  -- The children of a branch that the arena holds, and the rest.
  pub branch_children-Runs :
      {A : Type 0} {Q : A → State → Type 0} (i : ℕ) (l r : Tree)
      (f : RootRecord × RootRecord → Action A) (s : State)
      → IsBalanced (branch i l r)
      → Stored s.arena (branch i l r)
      → Runs (f (root_of l, root_of r)) (inspect 1 s).1 Q
      → Runs (branch_children (root_of (branch i l r)) >>= f) s Q
  unfolding branch_children expect_branch
  branch_children-Runs i l r f s b h k =
      let found =
        Runs-inspect {Q = λ p s'. (p ≡ (root_of l, root_of r)) × (s' ≡ (inspect 1 s).1)} 1 _ s (
          Runs-reading _ _ (inspect 1 s).1 (node_for_root_held s.arena (branch i l r) b h)
            (record { value = _; after = _; run = refl; post = (refl, refl) })) in
      Runs-bind _ f s found (λ p s' e. rw (e.0) (rw (e.1) k))
